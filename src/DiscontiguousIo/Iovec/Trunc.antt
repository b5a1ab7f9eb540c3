-- ===== src/DiscontiguousIo/Iovec/Trunc.antt =====
-- Cutting the vectors to a number of bytes.
use ndt.Base.{
  append-nil, ℕ, zero, suc, ◌+◌, ◌-◌, ◌%◌, ◌^◌, ◌≤◌, ◌<◌, ◌≡◌, refl, sym, ap, subst, ◌∙◌, arith,
  inl, inr,
}
use ndt.Base.{Bool-cases, leb}
use ndt.Base.{List, [], ◌∷◌, ◌++◌, Option, some}
use ndt.DiscontiguousIo.Iovec.{SgIovec, u64, data_len, trunc_from, trunc, bytes, write}

-- The first `n` entries.
abbrev pub take {ℓ} : {A : Type ℓ} → ℕ → List A → List A
take zero xs = []
take (suc n) [] = []
take (suc n) (x ∷ xs) = x ∷ take n xs

-- The bytes of all vectors, uncounted by a word.
abbrev pub total : List SgIovec → ℕ
total [] = 0
total (p ∷ v) = p.iov_len + total v

pub data_len-total : (v : List SgIovec) → total v < 2 ^ 64 → data_len v ≡ total v
unfolding data_len
data_len-total [] h = refl
data_len-total (p ∷ v) h = omega (arith, data_len-total v (omega (arith, h)))

take-append_short :
    (m : ℕ → ℕ) (a n k : ℕ) (rest : List ℕ) → n ≤ k → take n (bytes m a k ++ rest) ≡ bytes m a n
unfolding bytes
take-append_short m a zero k rest h = refl
take-append_short m a (suc n) zero rest h = absurd (omega arith)
take-append_short m a (suc n) (suc k) rest h =
    ap (λ t. m a ∷ t) (take-append_short m (a + 1) n k rest (omega arith))

take-append_long :
    (m : ℕ → ℕ) (a k n : ℕ) (rest : List ℕ)
    → take (k + n) (bytes m a k ++ rest) ≡ bytes m a k ++ take n rest
unfolding bytes
take-append_long m a zero n rest = let same : 0 + n ≡ n = omega arith in rw same refl
take-append_long m a (suc k) n rest =
    let same : suc k + n ≡ suc (k + n) = omega arith in
    rw same (ap (λ t. m a ∷ t) (take-append_long m (a + 1) k n rest))

-- What cutting to a number of bytes gives.
pub record IsCut (m : ℕ → ℕ) (v : List SgIovec) (len : ℕ) (r : Option (List SgIovec)) : Type 0 where
  pub shorter : List SgIovec
  pub returns : r ≡ some shorter
  pub first_bytes : write m shorter ≡ take len (write m v)
  pub exact : total shorter ≡ len

module _ (m : ℕ → ℕ) (len : ℕ) where
  -- The vector where the sum reaches the length.
  last_cut :
      (s : ℕ) (p : SgIovec) (v : List SgIovec)
      → s < len
      → len ≤ s + p.iov_len
      → s + (p.iov_len + total v) < 2 ^ 64
      → IsCut m (p ∷ v) (len - s) (trunc_from len s (p ∷ v))
  last_cut s p v below reached fits = record {
    shorter = record p { iov_len = len - s } ∷ [];
    returns = unfold trunc_from in ground (arith, cut_here);
    first_bytes =
        unfold write in
        (append-nil _
          ∙ sym (take-append_short m p.iov_base (len - s) p.iov_len (write m v) (omega arith)));
    exact = omega arith;
  }
    where
      cut_here : (p.iov_len + 2 ^ 64 - (u64 (s + p.iov_len) - len)) % 2 ^ 64 ≡ len - s
      cut_here = omega arith

  kept :
      (s : ℕ) (p : SgIovec) (v : List SgIovec)
      → s + p.iov_len < len
      → s + (p.iov_len + total v) < 2 ^ 64
      → IsCut m v (len - (s + p.iov_len)) (trunc_from len (s + p.iov_len) v)
      → IsCut m (p ∷ v) (len - s) (trunc_from len s (p ∷ v))
  kept s p v more fits rest = record {
    shorter = p ∷ rest.shorter;
    returns = unfold trunc_from in (rw same_sum (rw (rest.returns) (ground (arith, more))));
    first_bytes =
        unfold write in
        (ap (λ t. bytes m p.iov_base p.iov_len ++ t) rest.first_bytes
          ∙ sym (take-append_long m p.iov_base p.iov_len (len - (s + p.iov_len)) (write m v))
          ∙ ap (λ n. take n (bytes m p.iov_base p.iov_len ++ write m v)) lengths);
    exact = omega (arith, rest.exact);
  }
    where
      same_sum : u64 (s + p.iov_len) ≡ s + p.iov_len
      same_sum = omega arith

      lengths : p.iov_len + (len - (s + p.iov_len)) ≡ len - s
      lengths = omega arith

  trunc_from-IsCut :
      (s : ℕ) (v : List SgIovec)
      → s < len
      → len ≤ s + total v
      → s + total v < 2 ^ 64
      → IsCut m v (len - s) (trunc_from len s v)
  trunc_from-IsCut s [] below enough fits = absurd (omega arith)
  trunc_from-IsCut s (p ∷ v) below enough fits = elim (Bool-cases (leb len (s + p.iov_len))) [
    | inl reached ↦ last_cut s p v below (ground (arith, reached)) fits
    | inr more ↦
        kept s p v (ground (arith, more)) fits
          (trunc_from-IsCut (s + p.iov_len) v (ground (arith, more)) (omega arith) (omega arith))
  ]

-- Nothing is left of the first vector.
trunc_none : (m : ℕ → ℕ) (v : List SgIovec) → total v < 2 ^ 64 → IsCut m v 0 (trunc v 0)
unfolding write
trunc_none m [] fits = record {
  shorter = [];
  returns = unfold trunc trunc_from in refl;
  first_bytes = refl;
  exact = refl;
}
trunc_none m (p ∷ v) fits = record {
  shorter = record p { iov_len = 0 } ∷ [];
  returns = unfold trunc trunc_from in ground arith;
  first_bytes = unfold write bytes in refl;
  exact = refl;
}

-- Cutting vectors, of less than 2 ^ 64 bytes in total, to at most that total meets no failed assertion,
-- and leaves vectors of exactly that many bytes, which `write` puts out as the first bytes of all.
pub trunc-IsCut :
    (m : ℕ → ℕ) (v : List SgIovec) (len : ℕ)
    → len ≤ total v
    → total v < 2 ^ 64
    → IsCut m v len (trunc v len)
trunc-IsCut m v zero enough fits = trunc_none m v fits
trunc-IsCut m v (suc n) enough fits =
    let same : suc n - 0 ≡ suc n = omega arith in
    let cut =
      trunc_from-IsCut m (suc n) 0 v (omega arith) (omega (arith, enough)) (omega (arith, fits)) in
    unfold trunc in (subst (λ k. IsCut m v k (trunc_from (suc n) 0 v)) same cut)
