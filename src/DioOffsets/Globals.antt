-- ===== src/DioOffsets/Globals.antt =====
-- `init_args` and `init_buffers`: the parameters of the tests, and the size of the two buffers.
pub mod Sound
pub mod Room
use ndt.Base.{ℕ, ◌+◌, ◌-◌, ◌*◌, ◌/◌, ◌%◌, ◌^◌, bit_and, ℤ, is_neg, eqb, pos, ltb, ◌==◌}
use ndt.Base.{Bool, not, ◌&&◌, ◌||◌, if◌then◌else◌}
use ndt.DioOffsets.Words.{u64}

-- The ways in which the program ends with a failure.
pub data Failure : Type 0 where
  usage open_failed null_argument bad_parameters block_too_big size_failed : Failure
  memory_failed random_failed write_failed read_failed corrupted accepted_invalid : Failure

pub data Outcome {ℓ} (A : Type ℓ) : Type ℓ where
  ok : A → Outcome A
  fail : Failure → Outcome A

infixl 5 ◌>>=◌
abbrev pub ◌>>=◌ {ℓ κ} : {A : Type ℓ} {B : Type κ} → Outcome A → (A → Outcome B) → Outcome B
ok a >>= f = f a
fail e >>= f = fail e

-- The program's variables of that name.
pub record Globals : Type 0 where
  pub logical_block_size : ℕ
  pub dma_alignment : ℕ
  pub virt_boundary : ℕ
  pub max_segments : ℕ
  pub max_bytes : ℕ
  pub pagesize : ℕ
  pub buf_size : ℕ

-- What the system answers: the arguments as `strtoul` reads them, the page size, the size of the
-- device, and the calls that may fail.
pub record System : Type 0 where
  pub argc : ℕ
  pub argument : ℕ → ℕ
  pub opened : ℤ
  pub page_size : ℕ
  pub size_ret : ℤ
  pub dev_bytes : ℕ
  pub in_memalign : ℤ
  pub out_memalign : ℤ
  pub urandom : ℤ
  pub random_read : ℤ

unfoldable pub power_of_2 : ℕ → Bool
power_of_2 x = not (x == 0) && (bit_and x (x - 1) == 0)

-- The two checks of the arguments against each other.
unfoldable pub bad_arguments : ℕ → ℕ → ℕ → Bool
unfolding power_of_2
bad_arguments virt dma lb =
    not (power_of_2 virt)
    || not (power_of_2 dma)
    || not (power_of_2 lb)
    || (ltb 1 virt && ltb virt lb)
    || ltb lb dma

-- `max_bytes` cut down to 16 MiB, and to whole blocks.
unfoldable pub limited : ℕ → ℕ
limited kib =
    let limit : ℕ = 16384 * 1024 in if ltb limit (u64 (kib * 1024)) then limit else u64 (kib * 1024)

unfoldable pub whole_blocks : ℕ → ℕ → ℕ
whole_blocks bytes lb =
    if bit_and bytes (lb - 1) == 0 then bytes else bytes - bit_and bytes (lb - 1)

unfoldable pub given : System → Globals
given sys = record {
  logical_block_size = sys.argument 6;
  dma_alignment = u64 (sys.argument 4 + 1);
  virt_boundary = u64 (sys.argument 5 + 1);
  max_segments = if ltb 4096 (sys.argument 2) then 4096 else sys.argument 2;
  max_bytes = whole_blocks (limited (sys.argument 3)) (sys.argument 6);
  pagesize = sys.page_size;
  buf_size = 0;
}

-- `strtoul` of a missing argument reads through a null pointer.
unfoldable pub init_args : System → Outcome Globals
init_args sys =
    if is_neg sys.opened
    then fail open_failed
    else (if ltb sys.argc 7
        then fail null_argument
        else (if bad_arguments (u64 (sys.argument 5 + 1)) (u64 (sys.argument 4 + 1))
              (sys.argument 6)
            then fail bad_parameters
            else ok (given sys)))

-- The size wanted, before the device is asked for its own.
unfoldable pub unrounded : Globals → ℕ
unrounded g =
    let half = u64 (g.max_bytes * g.max_segments) / 2 in
    let room = u64 (g.logical_block_size * 1024 * 4) in if ltb half room then room else half

unfoldable pub rounded : ℕ → ℕ → ℕ
rounded size lb =
    if bit_and size (lb - 1) == 0
    then size
    else bit_and (u64 (size + (lb - 1))) (2 ^ 64 - 1 - (lb - 1))

unfoldable pub wanted_size : Globals → ℕ
unfolding unrounded rounded
wanted_size g = rounded (unrounded g) g.logical_block_size

unfoldable pub init_buffers : System → Globals → Outcome Globals
unfolding wanted_size
init_buffers sys g =
    if ltb (u64 (g.max_bytes * g.max_segments) / 2) (u64 (g.logical_block_size * g.max_segments))
    then fail block_too_big
    else (if is_neg sys.size_ret
        then fail size_failed
        else (if not (eqb sys.in_memalign (pos 0)) || not (eqb sys.out_memalign (pos 0))
            then fail memory_failed
            else (if is_neg sys.urandom || is_neg sys.random_read
                then fail random_failed
                else ok (record g {
                  buf_size =
                      if ltb sys.dev_bytes (wanted_size g) then sys.dev_bytes else wanted_size g;
                }))))
