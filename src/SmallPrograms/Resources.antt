-- ===== src/SmallPrograms/Resources.antt =====
-- What a program holds after some events: descriptors, memory, rings, and processes to wait for.
pub mod Released
pub mod Waiting
use ndt.Base.{
  ℕ, ◌+◌, ◌==◌, Bool, true, false, not, ◌&&◌, ◌||◌, if◌then◌else◌, ℤ, pos, negsuc, is_neg, eqb,
  List, [], ◌∷◌, ◌≡◌, refl, arith,
}
use ndt.SmallPrograms.{
  Call, open_file, close_file, calloc, free, ring_init, ring_exit, fork, waitpid, Event, failed,
}

pub data Resource : Type 0 where
  descriptor memory child : ℤ → Resource
  ring : Resource

abbrev pub same : Resource → Resource → Bool
same (descriptor a) (descriptor b) = eqb a b
same (memory a) (memory b) = eqb a b
same (child a) (child b) = eqb a b
same ring ring = true
same _ _ = false

-- Without one that is the same.
abbrev pub without : Resource → List Resource → List Resource
without r [] = []
without r (x ∷ xs) = let rest = without r xs in if same r x then xs else x ∷ rest

-- What a call that has been answered changes in what is held.
abbrev pub changed : Call → ℤ → List Resource → List Resource
changed (open_file path) a held = if is_neg a then held else descriptor a ∷ held
changed (calloc n) a held = if eqb a (pos 0) then held else memory a ∷ held
changed (ring_init n) a held = if is_neg a then held else ring ∷ held
changed fork a held = if failed a || eqb a (pos 0) then held else child a ∷ held
changed (close_file fd) a held = without (descriptor fd) held
changed (free p) a held = without (memory p) held
changed ring_exit a held = without ring held
changed (waitpid pid) a held = if failed a then held else without (child pid) held
changed _ a held = held

abbrev pub held : List Event → List Resource
held [] = []
held (e ∷ t) = changed e.call e.answer (held t)
