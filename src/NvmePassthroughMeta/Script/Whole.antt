-- ===== src/NvmePassthroughMeta/Script/Whole.antt =====
-- A run returns 0 exactly if the system plays along with the script.
use ndt.Base.{
  ℕ, ◌<◌, ◌≤◌, ◌≡◌, ◌↔◌, refl, ◌∙◌, arith, ltb, ◌==◌, true, false, Bool-cases, lt→ltb, inl, inr,
}
use ndt.Base.{ℤ, pos, eqb, List, [], ◌∷◌}
use ndt.NvmePassthroughMeta.{
  Host, Call, open_device, ioctl_id, map_pages, in_read_only, Run, returned, ◌>>=◌, current_lbaf,
  check_format, expect_failure, passthrough, main,
}
use ndt.NvmePassthroughMeta.Script.{
  IsPosix, io, script, Follows, after, require-granted, exchange-granted, require_step,
  exchange_step, format_step,
}

module _ (host : Host) where
  abbrev pub last_read : Call
  last_read = io host 2 (in_read_only 0)

  -- The format has metadata and a block size that an `int` can hold, the calls of the script are
  -- answered without an error, and the last read is not.
  abbrev pub IsScripted : Type 0
  IsScripted =
      ((current_lbaf host).ds < 31)
      × (0 < (current_lbaf host).ms)
      × Follows host (script host) []
      × (eqb (host.answer (after host (script host) []) last_read) (pos 0) ≡ false)

  last_step :
      (posix : IsPosix host) (c : Call) (calls trace : List Call)
      → expect_failure host c calls ≡ returned (pos 0) trace
      → (eqb (host.answer calls c) (pos 0) ≡ false) × (trace ≡ c ∷ calls)
  unfolding expect_failure
  last_step posix c calls trace h = elim (Bool-cases (eqb (host.answer calls c) (pos 0))) [
    | inl k ↦ absurd (grind (arith, rw k at h, posix.efault_pos))
    | inr k ↦ (k, grind (arith, rw k at h))
  ]

  passthrough_step :
      IsPosix host
      → (trace : List Call) → passthrough host [] ≡ returned (pos 0) trace
      → IsScripted × (trace ≡ last_read ∷ after host (script host) [])
  unfolding passthrough
  passthrough_step posix trace h0 =
      let (g1, h1) = require_step host _ _ posix false open_device trace h0 in
      let (g2, h2) = require_step host _ _ posix true ioctl_id trace h1 in
      let (g3, h3) = require_step host _ _ posix true _ trace h2 in
      let (small, some_metadata, h4) = format_step host _ _ posix trace h3 in
      let (g5, h5) = require_step host _ _ posix true (map_pages 8192 true) trace h4 in
      let (g6, g7, h6) = exchange_step host _ _ posix false _ _ trace h5 in
      let (g8, g9, h7) = exchange_step host _ _ posix true _ _ trace h6 in
      let (g10, h8) = require_step host _ _ posix true (map_pages 8192 false) trace h7 in
      let (g11, h9) = require_step host _ _ posix false _ trace h8 in
      let (failed, same) = last_step posix last_read _ trace h9 in
      (
        (
          small,
          some_metadata,
          (g1, (g2, (g3, (g5, (g6, (g7, (g8, (g9, (g10, (g11, tt)))))))))),
          failed,
        ),
        same,
      )

  format-granted :
      {A : Type 0} (f : ℤ → Run A) (calls : List Call)
      → (current_lbaf host).ds < 31
      → 0 < (current_lbaf host).ms
      → (check_format host >>= f) calls ≡ f (pos 0) calls
  unfolding check_format
  format-granted f calls small some_metadata =
      let fits : ltb (current_lbaf host).ds 31 ≡ true = lt→ltb _ _ small in
      let full : ((current_lbaf host).ms == 0) ≡ false = ground (arith, some_metadata) in
      rw (fits, full) refl

  passthrough_scripted :
      IsScripted → passthrough host [] ≡ returned (pos 0) (last_read ∷ after host (script host) [])
  unfolding passthrough
  passthrough_scripted
        (
          small,
          some_metadata,
          (g1, (g2, (g3, (g5, (g6, (g7, (g8, (g9, (g10, (g11, _)))))))))),
          failed,
        ) =
      require-granted host _ _ false open_device g1
      ∙ require-granted host _ _ true ioctl_id g2
      ∙ require-granted host _ _ true _ g3
      ∙ format-granted _ _ small some_metadata
      ∙ require-granted host _ _ true (map_pages 8192 true) g5
      ∙ exchange-granted host _ _ false _ _ g6 g7
      ∙ exchange-granted host _ _ true _ _ g8 g9
      ∙ require-granted host _ _ true (map_pages 8192 false) g10
      ∙ require-granted host _ _ false _ g11
      ∙ (unfold expect_failure in (rw failed refl))

  -- On a system whose error numbers are positive, the program returns 0 after some calls exactly if it
  -- has two arguments, the calls are those of the script and the last read, and the system answers
  -- the script without an error and that read with one, for a format with metadata and with a block
  -- size that an `int` can hold.
  pub main_succeeds_iff :
      IsPosix host
      → (argc : ℕ) (trace : List Call)
      → (main host argc ≡ returned (pos 0) trace)
        ↔ ((2 ≤ argc) × IsScripted × (trace ≡ last_read ∷ after host (script host) []))
  unfolding main
  main_succeeds_iff posix argc trace = (
    λ h. elim (Bool-cases (ltb argc 2)) [
      | inl few ↦ absurd (grind (arith, rw few at h, posix.einval_pos))
      | inr enough ↦
          let (scripted, same) = passthrough_step posix trace (rw enough at h) in
          (ground (arith, enough), scripted, same)
    ],
    λ (enough, scripted, same).
        let many : ltb argc 2 ≡ false = ground (arith, enough) in
        rw (many, passthrough_scripted scripted, same) refl,
  )
