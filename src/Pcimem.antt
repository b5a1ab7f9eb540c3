-- ===== src/Pcimem.antt =====
-- pcimem.c: reads and writes the registers of a PCI device through a mapping of its memory.
pub mod Dump
use ndt.Base.{
  ℕ, zero, suc, ◌+◌, ◌-◌, ◌*◌, ◌/◌, ◌%◌, ◌^◌, bit_and, ltb, ◌==◌, Bool, true, false, not, ◌&&◌,
  ◌||◌,
}
use ndt.Base.{if◌then◌else◌, List, [], ◌∷◌, ◌++◌, Option, none, some}
use ndt.DioOffsets.Words.{as_int}

-- The operations that `access_type` names.
pub data AccessType : Type 0 where
  byte halfword word double_word : AccessType

unfoldable pub type_width : AccessType → ℕ
type_width byte = 1
type_width halfword = 2
type_width word = 4
type_width double_word = 8

unfoldable pub access_type_of : ℕ → Option AccessType
access_type_of c =
    if c == b'b'
    then some byte
    else (if c == b'h'
        then some halfword
        else (if c == b'w' then some word else (if c == b'd' then some double_word else none)))

-- The arguments: `argv[2]` as `strtoul` reads it, the first character of `argv[3]` as `tolower` gives
-- it, the count if a star follows, and `argv[4]` as `strtoull` reads it.
pub record Arguments : Type 0 where
  pub argc : ℕ
  pub offset : ℕ
  pub type_char : ℕ
  pub starred : Bool
  pub count : ℕ
  pub data_word : ℕ

-- The page size, and whether the calls succeed; `maps` is told the size and the offset.
pub record System : Type 0 where
  pub page_size : ℕ
  pub opens : Bool
  pub maps : ℕ → ℕ → Bool
  pub unmaps : Bool

-- The memory of the device: a width and an offset from its start are read or written.
pub record Device (S : Type 0) : Type 0 where
  pub read_at : ℕ → ℕ → S → ℕ × S
  pub write_at : ℕ → ℕ → ℕ → S → S

-- What is printed: an offset and the value there, three dots, or a written value and what is then read.
pub data Line : Type 0 where
  value_line : ℕ → ℕ → Line
  dots_line : Line
  written_line : ℕ → ℕ → Line

-- The exits, and what the language leaves open.
pub data Ended (S : Type 0) : Type 0 where
  finished print_error : List Line → S → Ended S
  usage illegal_type : Ended S
  int_overflow unset_address : Ended S

unfoldable pub read_value : {S : Type 0} → Device S → ℕ → ℕ → S → ℕ × S
read_value dev width at s = let (v, s') = dev.read_at width at s in (v % 2 ^ (8 * width), s')

-- The offset as it is printed.
abbrev pub label : ℕ → ℕ → ℕ → ℕ
label target width i = (target + i * width) % 2 ^ 32

module _ {S : Type 0} (dev : Device S) (target width : ℕ) where
  -- The loop of the dump, with `left` items to go from `i` on.
  unfoldable pub dump : ℕ → ℕ → ℕ → Bool → S → List Line × S
  unfolding read_value
  dump zero i prev dupped s = ([], s)
  dump (suc left) i prev dupped s =
      let (v, read) = read_value dev width (target + i * width) s in
      let changed = not (v == prev) || (i == 0) in
      let (lines, last) = dump left (i + 1) v (not changed) read in
      if changed
      then (value_line (label target width i) v ∷ lines, last)
      else ((if dupped then lines else dots_line ∷ lines), last)

  -- The write at the address of the last item, and its readback.
  unfoldable pub write_last : ℕ → ℕ → S → Line × S
  unfolding read_value
  write_last items data_word s =
      let at = target + (items - 1) * width in
      let (v, s') =
        read_value dev width at (dev.write_at width at (data_word % 2 ^ (8 * width)) s) in
      (written_line data_word v, s')

-- `items_count` and `access_type` by default or from `argv[3]`.
unfoldable pub items_of : Arguments → ℕ
items_of args = if ltb 3 args.argc && args.starred then args.count % 2 ^ 32 else 1

unfoldable pub type_of : Arguments → Option AccessType
unfolding access_type_of
type_of args = if ltb 3 args.argc then access_type_of args.type_char else some word

-- Whether `items_count * type_width` exceeds an `int`, where `items` are the 32 bits of `items_count`.
unfoldable pub overflows : ℕ → ℕ → Bool
overflows items width =
    if ltb items (2 ^ 31)
    then not (ltb (items * width) (2 ^ 31))
    else ltb (2 ^ 31) ((2 ^ 32 - items) * width)

-- The turns of the loop: none for a negative count.
unfoldable pub turns_of : ℕ → ℕ
turns_of items = if ltb items (2 ^ 31) then items else 0

-- The size of the mapping from the page of the target on, an `int` that is handed to `mmap`; a negative
-- count takes away from it. The page size is a power of two.
unfoldable pub map_size : ℕ → ℕ → ℕ → ℕ → ℕ
map_size page target items width =
    let needed =
      if ltb items (2 ^ 31)
      then target % page + items * width
      else target % page - (2 ^ 32 - items) * width in
    if ltb 4096 needed then as_int needed else 4096

module _ {S : Type 0} (dev : Device S) (sys : System) (args : Arguments) where
  -- After the mapping has been made.
  unfoldable pub access : ℕ → ℕ → S → Ended S
  unfolding dump write_last turns_of
  access width items s =
      let (lines, read) = dump dev args.offset width (turns_of items) 0 0 false s in
      let (line, written) = write_last dev args.offset width (turns_of items) args.data_word read in
      if ltb 4 args.argc
      then (if turns_of items == 0
          then unset_address
          else (if sys.unmaps
              then finished (lines ++ line ∷ []) written
              else print_error (lines ++ line ∷ []) written))
      else (if sys.unmaps then finished lines read else print_error lines read)

  unfoldable pub map_and_access : ℕ → S → Ended S
  unfolding items_of overflows map_size access
  map_and_access width s =
      let items = items_of args in
      let base = args.offset - args.offset % sys.page_size in
      if not sys.opens
      then print_error [] s
      else (if overflows items width
          then int_overflow
          else (if sys.maps (map_size sys.page_size args.offset items width) base
              then access width items s
              else print_error [] s))

  unfoldable pub main : S → Ended S
  unfolding type_of type_width map_and_access
  main s =
      if ltb args.argc 3
      then usage
      else (elim (type_of args) [ none ↦ illegal_type | some t ↦ map_and_access (type_width t) s ])
