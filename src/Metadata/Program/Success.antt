-- ===== src/Metadata/Program/Success.antt =====
-- `main` of metadata.c on a device that keeps what it is given, and the size of its metadata buffer.
use ndt.Base.{ℕ, zero, suc, ◌+◌, ◌^◌, ◌≤◌, ◌<◌, ◌≡◌, refl, arith, ◌↔◌, ◌∙◌}
use ndt.Base.{
  true, false, ◌&&◌, ◌==◌, ltb, fill_inside, pos, negsuc, ℤ, int_of_u32, Bool-cases, inl, inr, ◌*◌,
  ◌/◌, ◌%◌, ◌-◌, is_neg, some,
}
use ndt.Metadata.Pattern.{Capabilities, check_metadata, init_capabilities}
use ndt.Metadata.Pattern.Detection.{check_bytes_complete}
use ndt.Metadata.Pattern.RoundTrip.{Fits, check_metadata-init_metadata}
use ndt.Metadata.Program.{
  data_size, data_byte, init_data, check_data, intervals, metabuffer_tx_size, metabuffer_size,
  pi_buf, request_ok, Device, Buffers, written, read_back, round, rounds, System, main, below_one,
}

-- The first bytes up to `n` are in a buffer of that size; none are where the size is negative.
abbrev pub IsWithin : ℕ → ℤ → Type 0
IsWithin n (pos size) = n ≤ size
IsWithin n (negsuc k) = ⊥

intervals-le : (c : Capabilities) → intervals c ≤ data_size
unfolding intervals
intervals-le c = quotient data_size c.lba_size
  where
    quotient : (n k : ℕ) → n / k ≤ n
    quotient n k = grind arith

product_fits : (a b : ℕ) → a ≤ data_size → b < 2 ^ 8 → a * b < 2 ^ 31
product_fits a b h l = grind (arith, h, l)

size_iff :
    (tx : ℕ)
    → tx < 2 ^ 31
    → ((offset : ℕ) → offset < 512 → IsWithin (offset * 4 + tx) (int_of_u32 (tx * 2 % 2 ^ 32)))
      ↔ ((2044 ≤ tx) × (tx < 2 ^ 30))
size_iff tx short = elim (Bool-cases (ltb tx (2 ^ 30))) [
  | inl low ↦
      let small : tx < 2 ^ 30 = ground (arith, low) in
      let size : int_of_u32 (tx * 2 % 2 ^ 32) ≡ pos (tx * 2) = ground (arith, small) in
      rw size (
        λ h. omega (arith, h 511 (omega arith), small),
        λ h offset below. omega (arith, h.0, below),
      )
  | inr high ↦
      let large : 2 ^ 30 ≤ tx = ground (arith, high) in
      let size : int_of_u32 (tx * 2 % 2 ^ 32) ≡ negsuc (2 ^ 32 - 1 - tx * 2) =
        ground (arith, large, short) in
      rw size (λ h. absurd (h 0 (omega arith)), λ h. absurd (omega (arith, h.1, large)))
]

-- For sizes as `init_capabilities` sets them, that of the metadata below 2 ^ 8, the metadata of a turn
-- ends within the buffer for all 512 offsets exactly if a transfer has at least 2044 bytes of metadata
-- and less than 2 ^ 30, from where on the size of the buffer is no `int` and wraps.
pub pi_buf_fits_iff :
    (c : Capabilities)
    → c.metadata_size < 2 ^ 8
    → ((offset : ℕ)
        → offset < 512
        → IsWithin (pi_buf offset + metabuffer_tx_size c) (metabuffer_size c))
      ↔ ((2044 ≤ metabuffer_tx_size c) × (metabuffer_tx_size c < 2 ^ 30))
unfolding pi_buf metabuffer_size metabuffer_tx_size
pi_buf_fits_iff c small =
    size_iff (intervals c * c.metadata_size)
      (product_fits (intervals c) c.metadata_size (intervals-le c) small)

-- Data that was kept passes `check_data`.
check_data-init_data :
    (offset : ℕ) (d d' : ℕ → ℕ)
    → ((a : ℕ) → a < data_size → d' a ≡ init_data offset d a)
    → check_data offset d' ≡ pos 0
unfolding check_data init_data
check_data-init_data offset d d' same = rw (
    check_bytes_complete data_size 0 0 (data_byte offset) d'
      (λ k l u. same (0 + k) (omega arith) ∙ fill_inside data_size 0 0 (data_byte offset) d k l u))

-- A device that answers every request, and whose read after a write gives the data and the metadata
-- back; nothing is assumed of the buffers beyond the bytes transferred.
pub record IsFaithful {D : Type 0} (dev : Device D) (c : Capabilities) : Type 0 where
  pub writes : (d : D) (at p : ℕ) (x y : ℕ → ℕ) → request_ok (dev.write_at d at p x y).0 ≡ true
  pub reads :
      (d : D) (at p : ℕ) (x y x' y' : ℕ → ℕ)
      → request_ok (dev.read_at (dev.write_at d at p x y).1 at p x' y').0 ≡ true
  pub keeps_data :
      (d : D) (at p : ℕ) (x y x' y' : ℕ → ℕ) (a : ℕ)
      → a < data_size
      → (dev.read_at (dev.write_at d at p x y).1 at p x' y').1 a ≡ x a
  pub keeps_metadata :
      (d : D) (at p : ℕ) (x y x' y' : ℕ → ℕ) (a : ℕ)
      → p ≤ a
      → a < p + metabuffer_tx_size c
      → (dev.read_at (dev.write_at d at p x y).1 at p x' y').2 a ≡ y a

module _ {D : Type 0} (dev : Device D) (c : Capabilities) (faithful : IsFaithful dev c)
    (fits : Fits c) where
  after_turn : ℕ → Buffers D → Buffers D
  after_turn offset b =
      let got = read_back dev c offset b in
      record { device = got.3; data_buf = got.1; pi_mem = got.2 }

  -- A turn finds nothing wrong.
  round_passes :
      (offset : ℕ) (b : Buffers D)
      → offset + intervals c ≤ 2 ^ 31
      → round dev c offset b ≡ some (after_turn offset b)
  unfolding round after_turn
  round_passes offset b h = rw wrote_ok (rw read_ok (rw data_ok (rw meta_ok)))
    where
      wrote_ok : request_ok (written dev c offset b).0 ≡ true
      wrote_ok = unfold written in faithful.writes _ _ _ _ _

      read_ok : request_ok (read_back dev c offset b).0 ≡ true
      read_ok = unfold read_back written in faithful.reads _ _ _ _ _ _ _

      data_ok : check_data offset (read_back dev c offset b).1 ≡ pos 0
      data_ok =
          unfold read_back written in
          check_data-init_data offset b.data_buf _ (faithful.keeps_data _ _ _ _ _ _ _)

      meta_ok :
          check_metadata c (pi_buf offset) (intervals c) offset (read_back dev c offset b).2 ≡ pos 0
      meta_ok =
          unfold read_back written metabuffer_tx_size in
          check_metadata-init_metadata c fits (pi_buf offset) (intervals c) offset b.pi_mem _ h
            (faithful.keeps_metadata _ _ _ _ _ _ _)

  rounds_pass :
      (left offset : ℕ) (b : Buffers D)
      → offset + left + intervals c ≤ 2 ^ 31
      → (b' : Buffers D) × (rounds dev c left offset b ≡ some b')
  unfolding rounds
  rounds_pass zero offset b h = (b, refl)
  rounds_pass (suc left) offset b h =
      let (b2, e2) = rounds_pass left (offset + 1) (after_turn offset b) (omega arith) in
      (b2, rw (round_passes offset b (omega arith), rounds) e2)

  intervals_bound : intervals c ≤ 2 ^ 30
  unfolding intervals
  intervals_bound = omega arith

  -- The setup of `main` succeeds with these capabilities.
  pub record SetUp (sys : System) (old : Capabilities) : Type 0 where
    pub given : ltb sys.argc 2 ≡ false
    pub opened : is_neg sys.fd ≡ false
    pub queried : is_neg sys.cap_ret ≡ false
    pub capabilities : init_capabilities sys.cap_ret sys.md_cap old ≡ (pos 0, c)
    pub lba_size_set : (c.lba_size == 0) ≡ false
    pub metadata_size_set : (c.metadata_size == 0) ≡ false
    pub data_allocated : (sys.data_memalign == 0) ≡ true
    pub pi_allocated : (sys.pi_memalign == 0) ≡ true
    pub ring_made : is_neg sys.queue_init ≡ false
    pub entries : (sys.first_sqe && sys.second_sqe) ≡ true
    pub last_submitted : below_one sys.submitted ≡ false

  -- On a device that answers every request and keeps what it is given, with a tuple that fits the
  -- metadata and a setup that succeeds, all 512 turns pass, and `main` returns what waiting for the
  -- two final completions returned.
  pub main_succeeds :
      (sys : System) (old : Capabilities) (b : Buffers D)
      → SetUp sys old
      → main dev sys old b ≡ sys.reaped
  unfolding main
  main_succeeds sys old b s =
      let (b', e) = rounds_pass 512 0 b (omega (arith, intervals_bound)) in
      simp (
        s.capabilities, s.given, s.opened, s.lba_size_set, s.metadata_size_set, s.data_allocated,
        s.pi_allocated, s.ring_made, e, s.entries, s.last_submitted,
      )
