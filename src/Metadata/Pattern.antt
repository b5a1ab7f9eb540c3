-- ===== src/Metadata/Pattern.antt =====
-- `init_capabilities`, `init_metadata` and `check_metadata`. A pointer into the metadata buffer is an
-- index; the program runs on a little-endian machine. `ref` and `i` stay far below 2 ^ 31.
pub mod RoundTrip
pub mod Detection
use ndt.Base.{ℕ, zero, suc, ◌+◌, ◌-◌, ◌*◌, ◌/◌, ◌%◌, ◌^◌, bit_and, bit_or, ◌==◌, if◌then◌else◌}
use ndt.Base.{
  Bool, true, false, not, ◌&&◌, update, fill, ℤ, pos, negsuc, is_neg, Option, none, some,
}
use ndt.Metadata.Tags.{swap, put_unaligned_be48, get_unaligned_be48}

-- The fields of `struct logical_block_metadata_cap` that the program reads.
pub record LogicalBlockMetadataCap : Type 0 where
  pub lbmd_flags : ℕ
  pub lbmd_interval : ℕ
  pub lbmd_size : ℕ
  pub lbmd_pi_size : ℕ
  pub lbmd_pi_offset : ℕ

-- The program's variables of that name.
pub record Capabilities : Type 0 where
  pub lba_size : ℕ
  pub metadata_size : ℕ
  pub pi_size : ℕ
  pub pi_offset : ℕ
  pub reftag_enabled : Bool

-- `ret` and `md_cap` are what the ioctl returns and fills in; on a failure nothing is set.
unfoldable pub init_capabilities : ℤ → LogicalBlockMetadataCap → Capabilities → ℤ × Capabilities
init_capabilities ret md_cap old = if is_neg ret then (ret, old) else (
  pos 0,
  record {
    lba_size = md_cap.lbmd_interval % 2 ^ 16;
    metadata_size = md_cap.lbmd_size % 2 ^ 8;
    pi_size = md_cap.lbmd_pi_size % 2 ^ 8;
    pi_offset = md_cap.lbmd_pi_offset % 2 ^ 8;
    reftag_enabled = not (bit_and md_cap.lbmd_flags 2 == 0);
  },
)

-- The PI tuple that is written: none, `struct t10_pi_tuple` or `struct crc64_pi_tuple`.
pub data PiTuple : Type 0 where
  no_tuple t10_pi_tuple crc64_pi_tuple : PiTuple

unfoldable pub tuple_of : Capabilities → PiTuple
tuple_of c =
    if c.reftag_enabled
    then (if c.pi_size == 8
        then t10_pi_tuple
        else (if c.pi_size == 16 then crc64_pi_tuple else no_tuple))
    else no_tuple

-- `sizeof(*tuple)`.
abbrev pub tuple_size : PiTuple → ℕ
tuple_size no_tuple = 0
tuple_size t10_pi_tuple = 8
tuple_size crc64_pi_tuple = 16

-- A 32-bit store and load of a little-endian machine.
unfoldable pub store32 : ℕ → ℕ → (ℕ → ℕ) → ℕ → ℕ
store32 v p m =
    let m0 = update m p (v % 256) in
    let m1 = update m0 (p + 1) (v / 2 ^ 8 % 256) in
    let m2 = update m1 (p + 2) (v / 2 ^ 16 % 256) in update m2 (p + 3) (v / 2 ^ 24 % 256)

unfoldable pub load32 : ℕ → (ℕ → ℕ) → ℕ
load32 p m = m p + m (p + 1) * 2 ^ 8 + m (p + 2) * 2 ^ 16 + m (p + 3) * 2 ^ 24

-- The reference tag, at offset 4 of the one tuple and at offset 10 of the other.
unfoldable pub put_tag : PiTuple → ℕ → ℕ → (ℕ → ℕ) → ℕ → ℕ
put_tag no_tuple ref p m = m
put_tag t10_pi_tuple ref p m = store32 (swap (ref % 2 ^ 32)) (p + 4) m
put_tag crc64_pi_tuple ref p m = put_unaligned_be48 ref (p + 10) m

unfoldable pub check_tag : PiTuple → ℕ → ℕ → (ℕ → ℕ) → Bool
check_tag no_tuple ref p m = true
check_tag t10_pi_tuple ref p m = swap (load32 (p + 4) m) == ref % 2 ^ 32
check_tag crc64_pi_tuple ref p m = get_unaligned_be48 (p + 10) m == ref

-- `(unsigned char)(ref + j + i)` and `(unsigned char)~(ref + j + i)`.
abbrev pub pre_byte : ℕ → ℕ → ℕ → ℕ
pre_byte i ref j = (ref + j + i) % 256

abbrev pub post_byte : ℕ → ℕ → ℕ → ℕ
post_byte i ref j = 255 - (ref + j + i) % 256

-- `for (j = from; j < from + left; j++) if (m[p + j] != value(j)) return -1;`
unfoldable pub check_bytes : ℕ → ℕ → ℕ → (ℕ → ℕ) → (ℕ → ℕ) → Bool
check_bytes zero j p value m = true
check_bytes (suc left) j p value m = (m (p + j) == value j) && check_bytes left (j + 1) p value m

module _ (c : Capabilities) where
  -- The number of bytes after the tuple, if there are any.
  unfoldable pub remaining : ℕ
  remaining = c.metadata_size - (c.pi_offset + tuple_size (tuple_of c))

  -- `p` after an interval; `remaining` is added as a signed number.
  unfoldable pub next_interval : ℕ → ℕ
  next_interval p =
      let tuple_end = p + c.pi_offset + tuple_size (tuple_of c) in
      tuple_end + c.metadata_size - (c.pi_offset + tuple_size (tuple_of c))

  unfoldable pub init_interval : ℕ → ℕ → ℕ → (ℕ → ℕ) → ℕ → ℕ
  init_interval i ref p m =
      let before = fill c.pi_offset 0 p (pre_byte i ref) m in
      let tagged = put_tag (tuple_of c) ref (p + c.pi_offset) before in
      fill remaining 0 (p + c.pi_offset + tuple_size (tuple_of c)) (post_byte i ref) tagged

  unfoldable pub check_interval : ℕ → ℕ → ℕ → (ℕ → ℕ) → Bool
  check_interval i ref p m =
      check_bytes c.pi_offset 0 p (pre_byte i ref) m
      && check_tag (tuple_of c) ref (p + c.pi_offset) m
      && check_bytes remaining 0 (p + c.pi_offset + tuple_size (tuple_of c)) (post_byte i ref) m

  -- The loops at interval `i`, with `left` of them to go.
  unfoldable pub init_from : ℕ → ℕ → ℕ → ℕ → (ℕ → ℕ) → ℕ → ℕ
  init_from zero i ref p m = m
  init_from (suc left) i ref p m =
      init_from left (i + 1) (ref + 1) (next_interval p) (init_interval i ref p m)

  unfoldable pub check_from : ℕ → ℕ → ℕ → ℕ → (ℕ → ℕ) → Bool
  check_from zero i ref p m = true
  check_from (suc left) i ref p m =
      let rest = check_from left (i + 1) (ref + 1) (next_interval p) m in
      check_interval i ref p m && rest

  unfoldable pub init_metadata : ℕ → ℕ → ℕ → (ℕ → ℕ) → ℕ → ℕ
  init_metadata p intervals ref m = init_from intervals 0 ref p m

  -- 0, or -1 at the first difference.
  unfoldable pub check_metadata : ℕ → ℕ → ℕ → (ℕ → ℕ) → ℤ
  check_metadata p intervals ref m = if check_from intervals 0 ref p m then pos 0 else negsuc 0
