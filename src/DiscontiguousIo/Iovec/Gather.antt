-- ===== src/DiscontiguousIo/Iovec/Gather.antt =====
-- What a device puts into vectors is what `write` puts out, if the vectors do not overlap.
use ndt.Base.{ℕ, zero, suc, ◌+◌, ◌≤◌, ◌<◌, ◌≡◌, ◌⊎◌, refl, sym, ap, ◌∙◌, arith}
use ndt.Base.{List, [], ◌∷◌, ◌++◌, All, fill, fill_inside, fill_outside}
use ndt.DiscontiguousIo.Iovec.{SgIovec, bytes, write}
use ndt.DiscontiguousIo.Iovec.Trunc.{total}

-- The bytes of a stream from the `k`th on, put into the vectors one after another.
unfoldable pub place : List SgIovec → (ℕ → ℕ) → ℕ → (ℕ → ℕ) → ℕ → ℕ
place [] c k m = m
place (p ∷ v) c k m = place v c (k + p.iov_len) (fill p.iov_len 0 p.iov_base (λ j. c (k + j)) m)

-- No byte is in both.
abbrev pub Apart : SgIovec → SgIovec → Type 0
Apart p q = (p.iov_base + p.iov_len ≤ q.iov_base) ⊎ (q.iov_base + q.iov_len ≤ p.iov_base)

abbrev pub IsDisjoint : List SgIovec → Type 0
IsDisjoint [] = Unit
IsDisjoint (p ∷ v) = All (Apart p) v × IsDisjoint v

place_outside :
    (v : List SgIovec) (c : ℕ → ℕ) (k : ℕ) (m : ℕ → ℕ) (a : ℕ)
    → All (λ q. (a < q.iov_base) ⊎ (q.iov_base + q.iov_len ≤ a)) v
    → place v c k m a ≡ m a
unfolding place
place_outside [] c k m a h = refl
place_outside (q ∷ v) c k m a h =
    place_outside v c (k + q.iov_len) _ a h.1
    ∙ fill_outside q.iov_len 0 q.iov_base (λ j. c (k + j)) m a (ground (arith, h.0))

pub bytes_agree :
    (m m' : ℕ → ℕ) (a a' n : ℕ)
    → ((j : ℕ) → j < n → m (a + j) ≡ m' (a' + j))
    → bytes m a n ≡ bytes m' a' n
unfolding bytes
bytes_agree m m' a a' zero h = refl
bytes_agree m m' a a' (suc n) h =
    let first : m a ≡ m' a' = shifted (omega arith) (omega arith) (h 0 (omega arith)) in
    let rest =
      bytes_agree m m' (a + 1) (a' + 1) n
        (λ j l. shifted (omega arith) (omega arith) (h (j + 1) (omega arith))) in
    rw first (ap (λ t. m' a' ∷ t) rest)
  where
    shifted : {x x' y y' : ℕ} → x ≡ x' → y ≡ y' → m x ≡ m' y → m x' ≡ m' y'
    shifted e f g = ap m (sym e) ∙ g ∙ ap m' f

bytes-append : (c : ℕ → ℕ) (k a b : ℕ) → bytes c k a ++ bytes c (k + a) b ≡ bytes c k (a + b)
unfolding bytes
bytes-append c k zero b =
    let none : k + 0 ≡ k = omega arith in let sum : 0 + b ≡ b = omega arith in rw (none, sum) refl
bytes-append c k (suc a) b =
    let from : k + suc a ≡ k + 1 + a = omega arith in
    let sum : suc a + b ≡ suc (a + b) = omega arith in
    rw (from, sum) (ap (λ t. c k ∷ t) (bytes-append c (k + 1) a b))

-- What was put into a vector first is not touched by what is put into the others.
first_kept :
    (p : SgIovec) (v : List SgIovec) (c : ℕ → ℕ) (k : ℕ) (m : ℕ → ℕ)
    → All (Apart p) v
    → (j : ℕ) → j < p.iov_len
    → place (p ∷ v) c k m (p.iov_base + j) ≡ c (k + j)
unfolding place
first_kept p v c k m apart j below =
    place_outside v c (k + p.iov_len) _ (p.iov_base + j) (outside v apart)
    ∙ fill_inside p.iov_len 0 p.iov_base (λ i. c (k + i)) m j (omega arith) (omega arith)
  where
    outside :
        (v : List SgIovec)
        → All (Apart p) v
        → All (λ q. (p.iov_base + j < q.iov_base) ⊎ (q.iov_base + q.iov_len ≤ p.iov_base + j)) v
    outside [] h = tt
    outside (q ∷ v) h = (ground (arith, h.0, below), outside v h.1)

place-step :
    (p : SgIovec) (v : List SgIovec) (c : ℕ → ℕ) (k : ℕ) (m : ℕ → ℕ)
    → place (p ∷ v) c k m
      ≡ place v c (k + p.iov_len) (fill p.iov_len 0 p.iov_base (λ j. c (k + j)) m)
unfolding place
place-step p v c k m = refl

-- Bytes that are put into vectors that do not overlap are put out again, in their order.
pub write-place :
    (v : List SgIovec) (c : ℕ → ℕ) (k : ℕ) (m : ℕ → ℕ)
    → IsDisjoint v
    → write (place v c k m) v ≡ bytes c k (total v)
unfolding write
write-place [] c k m h = unfold bytes in refl
write-place (p ∷ v) c k m h =
    let first =
      bytes_agree (place (p ∷ v) c k m) c p.iov_base k p.iov_len (first_kept p v c k m h.0) in
    let rest = ap (λ t. write t v) (place-step p v c k m) ∙ write-place v c (k + p.iov_len) _ h.1 in
    rw first (ap (λ t. bytes c k p.iov_len ++ t) rest ∙ bytes-append c k p.iov_len (total v))
