-- ===== src/Miniublk/Setup/Release/Counting.antt =====
-- How often parts are taken and given back, and the buffers of the ios.
use ndt.Base.{ℕ, zero, suc, ◌+◌, ◌≤◌, ◌<◌, ◌≡◌, ◌∙◌, ap, refl, arith, ◌==◌, Bool, false, bit}
use ndt.Base.{Option, none, some, Option-cases, inl, inr, List, [], ◌∷◌, ◌++◌, update}
use ndt.Miniublk.Types.{UblkIo}
use ndt.Miniublk.Setup.{fetch_flags, init_ios}
use ndt.Miniublk.Setup.Fresh.{init_ios-some, init_ios_before}
use ndt.Miniublk.Setup.Release.{
  Part, commands, buffer, ring, Effect, took, gave, unmapped_nothing, allocated, freed_from,
}

abbrev same : Part → Part → Bool
same (commands a) (commands b) = a == b
same (buffer a) (buffer b) = a == b
same (ring a) (ring b) = a == b
same _ _ = false

-- How often a part is taken, and how often it is given back.
abbrev pub times_taken : Part → List Effect → ℕ
times_taken r [] = 0
times_taken r (took p ∷ es) = bit (same r p) + times_taken r es
times_taken r (gave p ∷ es) = times_taken r es
times_taken r (unmapped_nothing ∷ es) = times_taken r es

abbrev pub times_given : Part → List Effect → ℕ
times_given r [] = 0
times_given r (took p ∷ es) = times_given r es
times_given r (gave p ∷ es) = bit (same r p) + times_given r es
times_given r (unmapped_nothing ∷ es) = times_given r es

module _ (r : Part) where
  pub times_taken-append :
      (xs ys : List Effect) → times_taken r (xs ++ ys) ≡ times_taken r xs + times_taken r ys
  times_taken-append [] ys = omega arith
  times_taken-append (took p ∷ xs) ys = omega (arith, times_taken-append xs ys)
  times_taken-append (gave p ∷ xs) ys = times_taken-append xs ys
  times_taken-append (unmapped_nothing ∷ xs) ys = times_taken-append xs ys

  pub times_given-append :
      (xs ys : List Effect) → times_given r (xs ++ ys) ≡ times_given r xs + times_given r ys
  times_given-append [] ys = omega arith
  times_given-append (took p ∷ xs) ys = times_given-append xs ys
  times_given-append (gave p ∷ xs) ys = omega (arith, times_given-append xs ys)
  times_given-append (unmapped_nothing ∷ xs) ys = times_given-append xs ys

  pub freed-takes_none : (ios : ℕ → UblkIo) (left i : ℕ) → times_taken r (freed_from ios left i) ≡ 0
  unfolding freed_from
  freed-takes_none ios zero i = refl
  freed-takes_none ios (suc left) i = ground (arith, freed-takes_none ios left (i + 1))

  pub freed-gives_none :
      (ios : ℕ → UblkIo) (left i : ℕ)
      → ((t : ℕ) → i ≤ t → (ios t).buf_addr ≡ 0)
      → times_given r (freed_from ios left i) ≡ 0
  unfolding freed_from
  freed-gives_none ios zero i h = refl
  freed-gives_none ios (suc left) i h =
      ground
        (arith, h i (omega arith), freed-gives_none ios left (i + 1) (λ t l. h t (omega arith)))

  freed-step :
      (ios : ℕ → UblkIo) (left i a : ℕ)
      → (ios i).buf_addr ≡ a
      → 0 < a
      → times_given r (freed_from ios (suc left) i)
        ≡ bit (same r (buffer a)) + times_given r (freed_from ios left (i + 1))
  unfolding freed_from
  freed-step ios left i a e h = rw e (ground (arith, h))

  module _ (memalign : ℕ → Option ℕ) (no_null : (i a : ℕ) → memalign i ≡ some a → 0 < a) where
    allocated-none : (left i : ℕ) → memalign i ≡ none → allocated memalign (suc left) i ≡ []
    unfolding allocated
    allocated-none left i e = rw (e, allocated)

    allocated-some :
        (left i a : ℕ)
        → memalign i ≡ some a
        → allocated memalign (suc left) i ≡ took (buffer a) ∷ allocated memalign left (i + 1)
    unfolding allocated
    allocated-some left i a e = rw (e, allocated)

    init_ios_stopped :
        (left i : ℕ) (ios : ℕ → UblkIo)
        → memalign i ≡ none
        → init_ios memalign (suc left) i ios
          ≡ (false, update ios i (record (ios i) { buf_addr = 0 }))
    unfolding init_ios
    init_ios_stopped left i ios e = rw (e, init_ios)

    pub allocated-gives_none : (left i : ℕ) → times_given r (allocated memalign left i) ≡ 0
    allocated-gives_none zero i = unfold allocated in refl
    allocated-gives_none (suc left) i = elim (Option-cases (memalign i)) [
      | inl e ↦ rw (allocated-none left i e) refl
      | inr (a, e) ↦ rw (allocated-some left i a e) (allocated-gives_none left (i + 1))
    ]

    -- What the loop allocates is what the io's buffers hold.
    pub buffers_freed :
        (left i : ℕ) (ios : ℕ → UblkIo)
        → ((t : ℕ) → i ≤ t → (ios t).buf_addr ≡ 0)
        → times_given r (freed_from (init_ios memalign left i ios).1 left i)
          ≡ times_taken r (allocated memalign left i)
    buffers_freed zero i ios h = unfold freed_from allocated in refl
    buffers_freed (suc left) i ios h = elim (Option-cases (memalign i)) [
      | inl e ↦
          let cleared = update ios i (record (ios i) { buf_addr = 0 }) in
          rw (init_ios_stopped left i ios e, allocated-none left i e)
            (freed-gives_none cleared (suc left) i (λ t l. ground (arith, h t l)))
      | inr (a, e) ↦
          let next = update ios i (record (ios i) { buf_addr = a; flags = fetch_flags }) in
          let rest = buffers_freed left (i + 1) next (λ t l. ground (arith, h t (omega arith))) in
          let made = init_ios_before memalign left (i + 1) next i (omega arith) in
          let address : ((init_ios memalign left (i + 1) next).1 i).buf_addr ≡ a =
            ap (λ io. io.buf_addr) made ∙ ground arith in
          rw (init_ios-some memalign left i a ios e, allocated-some left i a e)
            (freed-step (init_ios memalign left (i + 1) next).1 left i a address (no_null i a e)
              ∙ ap (λ n. bit (same r (buffer a)) + n) rest)
    ]
