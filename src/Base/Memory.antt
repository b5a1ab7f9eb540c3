-- ===== src/Base/Memory.antt =====
-- Arrays and byte buffers as functions of the index.
use Prim.Native.Nat.{ℕ, zero, suc, ◌+◌, ◌≤◌, ◌<◌}
use mathlib.Core.Path.{◌≡◌, refl}
use mathlib.Core.Logic.{◌⊎◌}
use native.Mathlib.Omega.{arith}
use ndt.Base.Test.{◌==◌, if◌then◌else◌}

abbrev pub update {ℓ} : {A : Type ℓ} → (ℕ → A) → ℕ → A → ℕ → A
update m i v j = if j == i then v else m j

-- `for (j = from; j < from + left; j++) m[p + j] = value(j)`.
unfoldable pub fill : ℕ → ℕ → ℕ → (ℕ → ℕ) → (ℕ → ℕ) → ℕ → ℕ
fill zero j p value m = m
fill (suc left) j p value m = fill left (j + 1) p value (update m (p + j) (value j))

pub fill_outside :
    (left j p : ℕ) (value m : ℕ → ℕ) (a : ℕ)
    → (a < p + j) ⊎ (p + j + left ≤ a)
    → fill left j p value m a ≡ m a
unfolding fill
fill_outside zero j p value m a h = refl
fill_outside (suc left) j p value m a h =
    ground (arith, fill_outside left (j + 1) p value (update m (p + j) (value j)) a)

pub fill_inside :
    (left j p : ℕ) (value m : ℕ → ℕ) (k : ℕ)
    → j ≤ k
    → k < j + left
    → fill left j p value m (p + k) ≡ value k
unfolding fill
fill_inside zero j p value m k h l = absurd (omega arith)
fill_inside (suc left) j p value m k h l = ground (
  arith,
  fill_inside left (j + 1) p value (update m (p + j) (value j)) k,
  fill_outside left (j + 1) p value (update m (p + j) (value j)) (p + k),
)
