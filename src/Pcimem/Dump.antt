-- ===== src/Pcimem/Dump.antt =====
-- The dump leaves out values that repeat; they can be told from what it prints.
use ndt.Base.{ℕ, zero, suc, ◌+◌, ◌*◌, ◌%◌, ◌^◌, ◌<◌, ◌≡◌, refl, ap, ◌∙◌, arith, ◌==◌, not, ◌||◌}
use ndt.Base.{==-refl, Bool, true, false, Bool-cases, inl, inr, if◌then◌else◌, List, [], ◌∷◌}
use ndt.Pcimem.{Device, Line, value_line, dots_line, written_line, read_value, label, dump}

-- The values that are read, one after another.
unfoldable pub values : {S : Type 0} → Device S → ℕ → ℕ → ℕ → ℕ → S → List ℕ
unfolding read_value
values dev target width zero i s = []
values dev target width (suc left) i s =
    let (v, read) = read_value dev width (target + i * width) s in
    v ∷ values dev target width left (i + 1) read

-- Reading a dump: a line with the offset of the item gives its value, and three dots, or a line with
-- another offset, mean the value before.
unfoldable pub undump : ℕ → ℕ → ℕ → ℕ → ℕ → List Line → List ℕ
undump target width zero i prev lines = []
undump target width (suc left) i prev [] = prev ∷ undump target width left (i + 1) prev []
undump target width (suc left) i prev (value_line at v ∷ lines) =
    if at == label target width i
    then v ∷ undump target width left (i + 1) v lines
    else prev ∷ undump target width left (i + 1) prev (value_line at v ∷ lines)
undump target width (suc left) i prev (dots_line ∷ lines) =
    prev ∷ undump target width left (i + 1) prev lines
undump target width (suc left) i prev (written_line w v ∷ lines) =
    prev ∷ undump target width left (i + 1) prev lines

-- Within 4 GiB, different items have different offsets.
labels_differ :
    (target width i j : ℕ)
    → 0 < width
    → i < j
    → j * width < 2 ^ 32
    → (label target width j == label target width i) ≡ false
labels_differ target width i j some_width less fits =
    apart target (i * width) (j * width) (grind (arith, some_width, less)) fits
  where
    apart : (t a b : ℕ) → a < b → b < 2 ^ 32 → ((t + b) % 2 ^ 32 == (t + a) % 2 ^ 32) ≡ false
    apart t a b h l = ground arith

module _ {S : Type 0} (dev : Device S) (target width : ℕ) (some_width : 0 < width) where
  -- Behind the dots, the next line is of a later item.
  skipped :
      (left i j n prev : ℕ) (s : S)
      → i < j
      → (j + left) * width < 2 ^ 32
      → undump target width (suc n) i prev (dump dev target width left j prev true s).0
        ≡ prev ∷ undump target width n (i + 1) prev (dump dev target width left j prev true s).0
  unfolding dump undump
  skipped zero i j n prev s less fits = refl
  skipped (suc left) i j n prev s less fits =
      let v = (read_value dev width (target + j * width) s).0 in
      let read = (read_value dev width (target + j * width) s).1 in
      elim (Bool-cases (not (v == prev) || (j == 0))) [
        | inl changed ↦
            rw changed
              (rw (labels_differ target width i j some_width less (grind (arith, fits))) refl)
        | inr same ↦
            let equal : v ≡ prev = ground (arith, same) in
            rw same
              (rw equal (skipped left i (j + 1) n prev read (omega arith) (grind (arith, fits))))
      ]

  undump_from :
      (left i prev : ℕ) (dupped : Bool) (s : S)
      → (i + left) * width < 2 ^ 32
      → undump target width left i prev (dump dev target width left i prev dupped s).0
        ≡ values dev target width left i s
  unfolding dump undump values
  undump_from zero i prev dupped s fits = refl
  undump_from (suc left) i prev dupped s fits =
      let v = (read_value dev width (target + i * width) s).0 in
      let read = (read_value dev width (target + i * width) s).1 in
      elim (Bool-cases (not (v == prev) || (i == 0))) [
        | inl changed ↦ rw changed (
            rw (==-refl (label target width i))
              (ap (λ t. v ∷ t) (undump_from left (i + 1) v false read (grind (arith, fits)))))
        | inr same ↦
            let equal : v ≡ prev = ground (arith, same) in
            let rest = undump_from left (i + 1) prev true read (grind (arith, fits)) in
            elim (Bool-cases dupped) [
              | inr first ↦ rw same (rw first (rw equal (ap (λ t. prev ∷ t) rest)))
              | inl again ↦ rw same (
                  rw again (
                    rw equal (
                      skipped left i (i + 1) left prev read (omega arith) (grind (arith, fits))
                      ∙ ap (λ t. prev ∷ t) rest)))
            ]
      ]

  -- From what the loop prints for a number of items, and from that number, the values that were read
  -- can be told, if an item has any bytes and the items together less than 4 GiB.
  pub undump-dump :
      (items : ℕ) (s : S)
      → items * width < 2 ^ 32
      → undump target width items 0 0 (dump dev target width items 0 0 false s).0
        ≡ values dev target width items 0 s
  undump-dump items s fits = undump_from items 0 0 false s (omega (arith, fits))
