-- ===== src/Miniublk/UserData.antt =====
-- The 64-bit `user_data` of a submission: tag, opcode, target data and the mark of target I/O.
use ndt.Base.{ℕ, ◌+◌, ◌*◌, ◌/◌, ◌%◌, ◌^◌, ◌<◌, bit_and, bit_or, ◌≡◌, arith, ◌==◌}
use ndt.Base.{if◌then◌else◌, not, ◌&&◌, Bool, true, false, Option, none, some, bit}
use ndt.Base.{bit_or_fields, bit_and_mask, bit_and_bit}

abbrev pub is_target_io : ℕ → Bool
is_target_io user_data = not (bit_and user_data (2 ^ 63) == 0)

-- The value of the `return`: the three left operands are `unsigned`, the last one is `__u64`.
unfoldable pub user_data_word : ℕ → ℕ → ℕ → ℕ → ℕ
user_data_word tag op tgt_data is_target =
    bit_or (bit_or (bit_or tag (op * 2 ^ 16 % 2 ^ 32)) (tgt_data * 2 ^ 24 % 2 ^ 32))
      (is_target * 2 ^ 63 % 2 ^ 64)

-- `none` is the failed `assert`.
unfoldable pub build_user_data : ℕ → ℕ → ℕ → ℕ → Option ℕ
build_user_data tag op tgt_data is_target =
    if (tag / 2 ^ 16 == 0) && (op / 2 ^ 8 == 0) && (tgt_data / 2 ^ 16 == 0)
    then some (user_data_word tag op tgt_data is_target)
    else none

unfoldable pub user_data_to_tag : ℕ → ℕ
user_data_to_tag user_data = bit_and user_data 0xffff

unfoldable pub user_data_to_op : ℕ → ℕ
user_data_to_op user_data = bit_and (user_data / 2 ^ 16) 0xff

low_sum :
    (tag op : ℕ) → tag < 2 ^ 16 → op < 2 ^ 8 → bit_or tag (op * 2 ^ 16 % 2 ^ 32) ≡ op * 2 ^ 16 + tag
low_sum tag op ht ho =
    let fits : op * 2 ^ 16 % 2 ^ 32 ≡ op * 2 ^ 16 = omega arith in
    rw fits (bit_or_fields 16 op tag ht)

middle_sum : (t r : ℕ) → r < 2 ^ 24 → bit_or r (t * 2 ^ 24 % 2 ^ 32) ≡ t % 256 * 2 ^ 24 + r
middle_sum t r h =
    let cut : t * 2 ^ 24 % 2 ^ 32 ≡ t % 256 * 2 ^ 24 = omega arith in
    rw cut (bit_or_fields 24 (t % 256) r h)

top_sum : (b : Bool) (r : ℕ) → r < 2 ^ 63 → bit_or r (bit b * 2 ^ 63 % 2 ^ 64) ≡ bit b * 2 ^ 63 + r
top_sum true r h = bit_or_fields 63 1 r h
top_sum false r h = bit_or_fields 63 0 r h

-- The word as a sum; only the low eight bits of the target data are in it.
pub user_data_word_sum :
    (tag op tgt_data : ℕ) (target : Bool)
    → tag < 2 ^ 16
    → op < 2 ^ 8
    → user_data_word tag op tgt_data (bit target)
      ≡ bit target * 2 ^ 63 + (tgt_data % 256 * 2 ^ 24 + (op * 2 ^ 16 + tag))
unfolding user_data_word
user_data_word_sum tag op tgt_data target ht ho =
    rw (low_sum tag op ht ho)
      (rw (middle_sum tgt_data (op * 2 ^ 16 + tag) (omega arith)) (top_sum target _ (omega arith)))

-- What `ublk_handle_cqe` reads back from the word.
pub record Decodes (user_data tag op : ℕ) (target : Bool) : Type 0 where
  pub tag_back : user_data_to_tag user_data ≡ tag
  pub op_back : user_data_to_op user_data ≡ op
  pub target_back : is_target_io user_data ≡ target

Decodes-sum :
    (tag op d : ℕ) (target : Bool)
    → tag < 2 ^ 16
    → op < 2 ^ 8
    → d < 2 ^ 8
    → Decodes (bit target * 2 ^ 63 + (d * 2 ^ 24 + (op * 2 ^ 16 + tag))) tag op target
unfolding user_data_to_tag user_data_to_op
Decodes-sum tag op d true ht ho hd = record {
  tag_back = ground (arith, bit_and_mask 16 (2 ^ 63 + (d * 2 ^ 24 + (op * 2 ^ 16 + tag))));
  op_back = ground (arith, bit_and_mask 8 ((2 ^ 63 + (d * 2 ^ 24 + (op * 2 ^ 16 + tag))) / 2 ^ 16));
  target_back = ground (arith, bit_and_bit 63 1 (d * 2 ^ 24 + (op * 2 ^ 16 + tag)) (omega arith));
}
Decodes-sum tag op d false ht ho hd = record {
  tag_back = ground (arith, bit_and_mask 16 (d * 2 ^ 24 + (op * 2 ^ 16 + tag)));
  op_back = ground (arith, bit_and_mask 8 ((d * 2 ^ 24 + (op * 2 ^ 16 + tag)) / 2 ^ 16));
  target_back = ground (arith, bit_and_bit 63 0 (d * 2 ^ 24 + (op * 2 ^ 16 + tag)) (omega arith));
}

-- For a tag, an opcode and target data that pass the assertions, a word is built, and the tag, the
-- opcode and the target mark are read back from it as they were given.
pub build_user_data-Decodes :
    (tag op tgt_data : ℕ) (target : Bool)
    → tag < 2 ^ 16
    → op < 2 ^ 8
    → tgt_data < 2 ^ 16
    → (word : ℕ) × (build_user_data tag op tgt_data (bit target) ≡ some word)
      × Decodes word tag op target
unfolding build_user_data
build_user_data-Decodes tag op tgt_data target ht ho hd = (
  user_data_word tag op tgt_data (bit target),
  ground arith,
  rw (user_data_word_sum tag op tgt_data target ht ho)
      (Decodes-sum tag op (tgt_data % 256) target ht ho (omega arith)),
)

-- The assertion admits 16 bits of target data, and `tgt_data << 24` keeps the low eight of them:
-- two values that agree there give the same word.
build_user_data_forgets :
    (tag op a b : ℕ) (target : Bool)
    → tag < 2 ^ 16
    → op < 2 ^ 8
    → a < 2 ^ 16
    → b < 2 ^ 16
    → a % 2 ^ 8 ≡ b % 2 ^ 8
    → build_user_data tag op a (bit target) ≡ build_user_data tag op b (bit target)
unfolding build_user_data
build_user_data_forgets tag op a b target ht ho ha hb e =
    ground
      (arith, user_data_word_sum tag op a target ht ho, user_data_word_sum tag op b target ht ho)
