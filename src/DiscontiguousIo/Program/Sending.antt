-- ===== src/DiscontiguousIo/Program/Sending.antt =====
-- The loop that fills the vectors, with an input that is long enough for them.
use ndt.Base.{ℕ, zero, suc, ◌+◌, ◌-◌, ◌≤◌, ◌<◌, ◌≡◌, ◌⊎◌, refl, sym, ap, ◌∙◌, arith, inl, ◌==◌}
use ndt.Base.{true, if◌then◌else◌, List, [], ◌∷◌, ◌++◌, length, All}
use ndt.DiscontiguousIo.Iovec.{SgIovec, bytes, write}
use ndt.DiscontiguousIo.Iovec.Trunc.{total, take}
use ndt.DiscontiguousIo.Iovec.Gather.{Apart, IsDisjoint, bytes_agree}
use ndt.DiscontiguousIo.Program.{Stdin, read_bytes, fill_vectors}

-- What is left without the first `n` entries.
abbrev drop : ℕ → List ℕ → List ℕ
drop zero xs = xs
drop (suc n) [] = []
drop (suc n) (x ∷ xs) = drop n xs

length-drop : (n : ℕ) (xs : List ℕ) → length (drop n xs) ≡ length xs - n
length-drop zero xs = omega arith
length-drop (suc n) [] = omega arith
length-drop (suc n) (x ∷ xs) = omega (arith, length-drop n xs)

take-nil : (k : ℕ) → take k (drop 0 []) ≡ []
take-nil zero = refl
take-nil (suc k) = refl

take-drop : (n k : ℕ) (xs : List ℕ) → take n xs ++ take k (drop n xs) ≡ take (n + k) xs
take-drop zero k xs = let same : 0 + k ≡ k = omega arith in rw same refl
take-drop (suc n) k [] = let same : suc n + k ≡ suc (n + k) = omega arith in rw same (take-nil k)
take-drop (suc n) k (x ∷ xs) =
    let same : suc n + k ≡ suc (n + k) = omega arith in rw same (ap (λ t. x ∷ t) (take-drop n k xs))

abbrev Outside : ℕ → ℕ → ℕ → Type 0
Outside a from count = (a < from) ⊎ (from + count ≤ a)

-- A read that the input is long enough for.
record IsRead (n at : ℕ) (input : List ℕ) (m : ℕ → ℕ) (r : ℕ × List ℕ × (ℕ → ℕ)) : Type 0 where
  pub all : r.0 ≡ n
  pub rest : r.1 ≡ drop n input
  pub stored : bytes r.2 at n ≡ take n input
  pub kept : (a : ℕ) → Outside a at n → r.2 a ≡ m a

read_bytes-IsRead :
    (n at : ℕ) (input : List ℕ) (m : ℕ → ℕ)
    → n ≤ length input
    → IsRead n at input m (read_bytes n at input m)
unfolding read_bytes bytes
read_bytes-IsRead zero at input m h = record {
  all = refl;
  rest = refl;
  stored = refl;
  kept = λ a o. refl;
}
read_bytes-IsRead (suc n) at [] m h = absurd (omega arith)
read_bytes-IsRead (suc n) at (b ∷ input) m h =
    let more = read_bytes-IsRead n (at + 1) input (λ a. if a == at then b else m a) (omega arith) in
    record {
      all = omega (arith, more.all);
      rest = more.rest;
      stored = ground (arith, more.stored, more.kept at (inl (omega arith)));
      kept = λ a o. ground (arith, more.kept a (ground (arith, o)), o);
    }

-- What the loop leaves when the input is long enough for the vectors.
pub record IsFilled (v : List SgIovec) (cin : Stdin) (m : ℕ → ℕ) (r : List SgIovec × (ℕ → ℕ))
    : Type 0 where
  pub uncut : r.0 ≡ v
  pub sent : write r.1 v ≡ take (total v) cin.left
  pub kept : (a : ℕ) → All (λ p. Outside a p.iov_base p.iov_len) v → r.1 a ≡ m a

Outside-others :
    (p : SgIovec) (v : List SgIovec) (j : ℕ)
    → All (Apart p) v
    → j < p.iov_len
    → All (λ q. Outside (p.iov_base + j) q.iov_base q.iov_len) v
Outside-others p [] j h l = tt
Outside-others p (q ∷ v) j h l = (ground (arith, h.0, l), Outside-others p v j h.1 l)

-- One vector, then the others.
fill_more :
    (e : SgIovec) (v : List SgIovec) (cin : Stdin) (m : ℕ → ℕ) (r : ℕ × List ℕ × (ℕ → ℕ))
    (cin' : Stdin)
    → r ≡ read_bytes e.iov_len e.iov_base cin.left m
    → IsRead e.iov_len e.iov_base cin.left m r
    → cin' ≡ record { left = r.1; gcount = r.0 }
    → IsFilled v cin' r.2 (fill_vectors v cin' r.2)
    → All (Apart e) v
    → IsFilled (e ∷ v) cin m (fill_vectors (e ∷ v) cin m)
unfolding write
fill_more e v cin m r cin' is_r got is_cin' more apart = record {
  uncut = ap (λ t. t.0) step ∙ ap (λ t. e ∷ t) more.uncut;
  sent =
      ap (λ t. write t.1 (e ∷ v)) step
      ∙ ap (λ t. t ++ write put v) (first ∙ got.stored)
      ∙ ap (λ t. take e.iov_len cin.left ++ t)
          (more.sent ∙ ap (λ t. take (total v) t.left) is_cin' ∙ ap (take (total v)) got.rest)
      ∙ take-drop e.iov_len (total v) cin.left;
  kept = λ a o. ap (λ t. t.1 a) step ∙ more.kept a o.1 ∙ got.kept a o.0;
}
  where
    put : ℕ → ℕ
    put = (fill_vectors v cin' r.2).1

    same : (r.0 == e.iov_len) ≡ true
    same = ground (arith, got.all)

    step : fill_vectors (e ∷ v) cin m ≡ (e ∷ (fill_vectors v cin' r.2).0, put)
    step = unfold fill_vectors in (rw (sym is_r, same, is_cin') refl)

    first : bytes put e.iov_base e.iov_len ≡ bytes r.2 e.iov_base e.iov_len
    first =
        bytes_agree put r.2 e.iov_base e.iov_base e.iov_len
          (λ j l. more.kept (e.iov_base + j) (Outside-others e v j apart l))

pub fill_vectors-IsFilled :
    (v : List SgIovec) (cin : Stdin) (m : ℕ → ℕ)
    → IsDisjoint v
    → total v ≤ length cin.left
    → IsFilled v cin m (fill_vectors v cin m)
fill_vectors-IsFilled [] cin m d h =
    unfold fill_vectors write in (record { uncut = refl; sent = refl; kept = λ a o. refl })
fill_vectors-IsFilled (e ∷ v) cin m d h =
    let r = read_bytes e.iov_len e.iov_base cin.left m in
    let got = read_bytes-IsRead e.iov_len e.iov_base cin.left m (omega (arith, h)) in
    let enough : total v ≤ length r.1 =
      rw got.rest (omega (arith, length-drop e.iov_len cin.left, h)) in
    fill_more e v cin m r _ refl got refl
      (fill_vectors-IsFilled v (record { left = r.1; gcount = r.0 }) r.2 d.1 enough) d.0
