-- ===== src/Metadata/Pattern/RoundTrip.antt =====
-- What `init_metadata` writes passes `check_metadata`, and nothing else is written.
use ndt.Base.{ℕ, zero, suc, ◌+◌, ◌-◌, ◌*◌, ◌%◌, ◌^◌, ◌≤◌, ◌<◌, ◌≡◌, refl, arith, ◌⊎◌, inl, inr}
use ndt.Base.{true, ==-refl, ◌∙◌, fill, fill_inside, fill_outside, pos}
use ndt.Metadata.Tags.{swap, swap_bytes, swap-swap, get_unaligned_be48, put_unaligned_be48}
use ndt.Metadata.Tags.{put_unaligned_be48_outside, get-put_unaligned_be48}
use ndt.Metadata.Pattern.{
  Capabilities, PiTuple, no_tuple, t10_pi_tuple, crc64_pi_tuple, tuple_of, tuple_size, put_tag,
  check_tag, store32, load32, pre_byte, post_byte, remaining, next_interval, init_interval,
  check_interval, init_from, check_from, init_metadata, check_metadata,
}
use ndt.Metadata.Pattern.Detection.{check_bytes_complete, next_interval_lem}

load32-store32 : (v p : ℕ) (m : ℕ → ℕ) → v < 2 ^ 32 → load32 p (store32 v p m) ≡ v
unfolding load32 store32
load32-store32 v p m h = ground arith

store32_outside : (v p : ℕ) (m : ℕ → ℕ) (a : ℕ) → (a < p) ⊎ (p + 4 ≤ a) → store32 v p m a ≡ m a
unfolding store32
store32_outside v p m a h = ground arith

put_tag_outside :
    (t : PiTuple) (ref p : ℕ) (m : ℕ → ℕ) (a : ℕ)
    → (a < p) ⊎ (p + tuple_size t ≤ a)
    → put_tag t ref p m a ≡ m a
unfolding put_tag
put_tag_outside no_tuple ref p m a h = refl
put_tag_outside t10_pi_tuple ref p m a h = store32_outside _ (p + 4) m a (omega arith)
put_tag_outside crc64_pi_tuple ref p m a h =
    put_unaligned_be48_outside ref (p + 10) m a (omega arith)

check_tag-put_tag :
    (t : PiTuple) (ref p : ℕ) (m : ℕ → ℕ)
    → ref < 2 ^ 31
    → check_tag t ref p (put_tag t ref p m) ≡ true
unfolding check_tag put_tag
check_tag-put_tag no_tuple ref p m h = refl
check_tag-put_tag t10_pi_tuple ref p m h =
    let v = ref % 2 ^ 32 in
    rw (load32-store32 (swap v) (p + 4) m (omega (arith, swap_bytes v (omega arith))))
      (rw (swap-swap v (omega arith)) (==-refl v))
check_tag-put_tag crc64_pi_tuple ref p m h =
    let back : get_unaligned_be48 (p + 10) (put_unaligned_be48 ref (p + 10) m) ≡ ref =
      omega (arith, get-put_unaligned_be48 ref (p + 10) m) in
    rw back (==-refl ref)

load32_local :
    (p : ℕ) (m m' : ℕ → ℕ) → ((a : ℕ) → p ≤ a → a < p + 4 → m' a ≡ m a) → load32 p m' ≡ load32 p m
unfolding load32
load32_local p m m' h =
    let e0 = h p (omega arith) (omega arith) in
    let e1 = h (p + 1) (omega arith) (omega arith) in
    let e2 = h (p + 2) (omega arith) (omega arith) in
    let e3 = h (p + 3) (omega arith) (omega arith) in cc

get_unaligned_be48_local :
    (p : ℕ) (m m' : ℕ → ℕ)
    → ((a : ℕ) → p ≤ a → a < p + 6 → m' a ≡ m a)
    → get_unaligned_be48 p m' ≡ get_unaligned_be48 p m
unfolding get_unaligned_be48
get_unaligned_be48_local p m m' h =
    let e0 = h p (omega arith) (omega arith) in
    let e1 = h (p + 1) (omega arith) (omega arith) in
    let e2 = h (p + 2) (omega arith) (omega arith) in
    let e3 = h (p + 3) (omega arith) (omega arith) in
    let e4 = h (p + 4) (omega arith) (omega arith) in
    let e5 = h (p + 5) (omega arith) (omega arith) in cc

-- The check of a tag reads only the tuple.
check_tag_local :
    (t : PiTuple) (ref p : ℕ) (m m' : ℕ → ℕ)
    → ((a : ℕ) → p ≤ a → a < p + tuple_size t → m' a ≡ m a)
    → check_tag t ref p m' ≡ check_tag t ref p m
unfolding check_tag
check_tag_local no_tuple ref p m m' h = refl
check_tag_local t10_pi_tuple ref p m m' h =
    rw (load32_local (p + 4) m m' (λ a l u. h a (omega arith) (omega arith)))
check_tag_local crc64_pi_tuple ref p m m' h =
    rw (get_unaligned_be48_local (p + 10) m m' (λ a l u. h a (omega arith) (omega arith)))

-- The tuple fits the metadata of an interval.
abbrev pub Fits : Capabilities → Type 0
Fits c = c.pi_offset + tuple_size (tuple_of c) ≤ c.metadata_size

module _ (c : Capabilities) (fits : Fits c) where
  -- An interval is written in its own place.
  init_interval_outside :
      (i ref p : ℕ) (m : ℕ → ℕ) (a : ℕ)
      → (a < p) ⊎ (p + c.metadata_size ≤ a)
      → init_interval c i ref p m a ≡ m a
  unfolding init_interval remaining
  init_interval_outside i ref p m a h =
      fill_outside _ 0 _ (post_byte i ref) _ a (omega arith)
      ∙ put_tag_outside (tuple_of c) ref (p + c.pi_offset) _ a (omega arith)
      ∙ fill_outside c.pi_offset 0 p (pre_byte i ref) m a (omega arith)

  -- A buffer that still holds what was written in the interval's place passes the check there.
  check_interval_written :
      (i ref p : ℕ) (m m' : ℕ → ℕ)
      → ref < 2 ^ 31
      → ((a : ℕ) → p ≤ a → a < p + c.metadata_size → m' a ≡ init_interval c i ref p m a)
      → check_interval c i ref p m' ≡ true
  unfolding check_interval init_interval remaining
  check_interval_written i ref p m m' small h =
      let t = tuple_of c in
      let before = fill c.pi_offset 0 p (pre_byte i ref) m in
      let tagged = put_tag t ref (p + c.pi_offset) before in
      let pre = check_bytes_complete c.pi_offset 0 p (pre_byte i ref) m' (λ k l u.
        h (p + k) (omega arith) (omega arith)
        ∙ fill_outside _ 0 _ (post_byte i ref) tagged (p + k) (omega arith)
        ∙ put_tag_outside t ref (p + c.pi_offset) before (p + k) (omega arith)
        ∙ fill_inside c.pi_offset 0 p (pre_byte i ref) m k l u) in
      let tag =
        check_tag_local t ref (p + c.pi_offset) tagged m' (λ a l u.
          h a (omega arith) (omega arith)
          ∙ fill_outside _ 0 _ (post_byte i ref) tagged a (omega arith))
        ∙ check_tag-put_tag t ref (p + c.pi_offset) before small in
      let post =
        check_bytes_complete (c.metadata_size - (c.pi_offset + tuple_size t)) 0
          (p + c.pi_offset + tuple_size t) (post_byte i ref) m'
          (λ k l u.
            h (p + c.pi_offset + tuple_size t + k) (omega arith) (omega arith)
            ∙ fill_inside _ 0 _ (post_byte i ref) tagged k l u) in
      rw pre (rw tag post)

  pub init_from_below :
      (left i ref p : ℕ) (m : ℕ → ℕ) (a : ℕ) → a < p → init_from c left i ref p m a ≡ m a
  unfolding init_from
  init_from_below zero i ref p m a h = refl
  init_from_below (suc left) i ref p m a h =
      init_from_below left (i + 1) (ref + 1) (next_interval c p) _ a
        (omega (arith, next_interval_lem c p))
      ∙ init_interval_outside i ref p m a (inl h)

  init_from_above :
      (left i ref p : ℕ) (m : ℕ → ℕ) (a : ℕ)
      → p + left * c.metadata_size ≤ a
      → init_from c left i ref p m a ≡ m a
  unfolding init_from
  init_from_above zero i ref p m a h = refl
  init_from_above (suc left) i ref p m a h =
      init_from_above left (i + 1) (ref + 1) (next_interval c p) _ a
        (grind (arith, next_interval_lem c p))
      ∙ init_interval_outside i ref p m a (inr (grind arith))

  -- The same for several intervals.
  check_from_written :
      (left i ref p : ℕ) (m m' : ℕ → ℕ)
      → ref + left ≤ 2 ^ 31
      → ((a : ℕ) → p ≤ a → a < p + left * c.metadata_size → m' a ≡ init_from c left i ref p m a)
      → check_from c left i ref p m' ≡ true
  unfolding init_from check_from
  check_from_written zero i ref p m m' h same = refl
  check_from_written (suc left) i ref p m m' h same =
      let here = check_interval_written i ref p m m' (omega arith) (λ a l u.
        same a l (grind arith)
        ∙ init_from_below left (i + 1) (ref + 1) (next_interval c p) _ a
            (omega (arith, next_interval_lem c p))) in
      let later =
        check_from_written left (i + 1) (ref + 1) (next_interval c p) (init_interval c i ref p m) m'
          (omega arith)
          (λ a l u.
            same a (omega (arith, next_interval_lem c p)) (grind (arith, next_interval_lem c p))) in
      rw here later

  -- Where the tuple fits the metadata and the reference tags stay in range of an `int`, a buffer that
  -- holds in the place of the intervals what `init_metadata` wrote passes `check_metadata` for them.
  pub check_metadata-init_metadata :
      (p intervals ref : ℕ) (m m' : ℕ → ℕ)
      → ref + intervals ≤ 2 ^ 31
      → ((a : ℕ)
          → p ≤ a
          → a < p + intervals * c.metadata_size
          → m' a ≡ init_metadata c p intervals ref m a)
      → check_metadata c p intervals ref m' ≡ pos 0
  unfolding check_metadata init_metadata
  check_metadata-init_metadata p intervals ref m m' h same =
      rw (check_from_written intervals 0 ref p m m' h same)

  -- Where the tuple fits the metadata, `init_metadata` writes no byte before the pointer, and none
  -- from `intervals * metadata_size` bytes behind it on.
  pub init_metadata_outside :
      (p intervals ref : ℕ) (m : ℕ → ℕ) (a : ℕ)
      → (a < p) ⊎ (p + intervals * c.metadata_size ≤ a)
      → init_metadata c p intervals ref m a ≡ m a
  unfolding init_metadata
  init_metadata_outside p intervals ref m a (inl h) = init_from_below intervals 0 ref p m a h
  init_metadata_outside p intervals ref m a (inr h) = init_from_above intervals 0 ref p m a h
