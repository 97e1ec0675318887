-- ===== src/Options.antt =====
-- cache/options.go, and the checks at the head of `Open` in cache/store.go. A `time.Duration` and an
-- `int64` are integers; an unsigned option is a number.
pub mod Power
mod Runs
use go.Prelude.{ℕ, zero, suc, ◌+◌, ◌-◌, ◌*◌, ◌/◌, ◌^◌, bit_and, Bool, true, false, ◌||◌, not}
use go.Prelude.{List, [], ◌∷◌, Option, none, some, ltb, leb, ◌==◌, if◌then◌else◌}
use go.Prelude.Int.{ℤ, pos, negsuc, leb_ℤ}
use go.Errors.{Error, Result, ok, err, ◌>>=◌, nil_option, invalid_option, capacity_per_shard}
use go.Shard.{entry_overhead}

pub record Options : Type 0 where
  pub shards : ℕ
  pub capacity : ℕ
  pub flush_interval : ℤ
  pub segment_size : ℤ
  pub snapshot_threshold : ℤ
  pub sweep_interval : ℤ
  pub has_logger : Bool

-- `Option func(*options) error`; `none` is an error of the option.
abbrev pub Setting : Type 0
Setting = Options → Option Options

abbrev pub segment_header_size : ℕ
segment_header_size = 8

-- `count <= 0 || count&(count-1) != 0`
unfoldable pub with_shards : ℤ → Setting
with_shards (negsuc n) o = none
with_shards (pos count) o =
    if leb count 0 || not (bit_and count (count - 1) == 0)
    then none
    else some (record o { shards = count })

unfoldable pub with_capacity : ℕ → Setting
with_capacity bytes o = if bytes == 0 then none else some (record o { capacity = bytes })

unfoldable pub with_flush_interval : ℤ → Setting
with_flush_interval interval o =
    if leb_ℤ interval (pos 0) then none else some (record o { flush_interval = interval })

unfoldable pub with_segment_size : ℤ → Setting
with_segment_size size o =
    if leb_ℤ size (pos segment_header_size) then none else some (record o { segment_size = size })

unfoldable pub with_snapshot_threshold : ℤ → Setting
with_snapshot_threshold bytes o =
    if leb_ℤ bytes (pos 0) then none else some (record o { snapshot_threshold = bytes })

unfoldable pub with_sweep_interval : ℤ → Setting
with_sweep_interval interval o =
    if leb_ℤ interval (pos 0) then none else some (record o { sweep_interval = interval })

-- The argument says whether the logger is not nil.
unfoldable pub with_logger : Bool → Setting
with_logger given o = if given then some (record o { has_logger = true }) else none

-- The loop of `defaultOptions`: the first power of two that is no less than the number of
-- processors. Each round doubles, so as many rounds as there are processors are enough.
unfoldable pub default_shards : ℕ → ℕ → ℕ → ℕ
default_shards zero shards procs = shards
default_shards (suc fuel) shards procs =
    let more = default_shards fuel (shards * 2) procs in if ltb shards procs then more else shards

unfoldable pub default_options : ℕ → Options
unfolding default_shards
default_options procs = record {
  shards = default_shards procs 1 procs;
  capacity = 256 * 2 ^ 20;
  flush_interval = pos 1000000000;
  segment_size = pos (64 * 2 ^ 20);
  snapshot_threshold = pos (256 * 2 ^ 20);
  sweep_interval = pos 1000000000;
  has_logger = false;
}

-- The loop of `Open` over the options that it is given; `none` among them is a nil option.
unfoldable pub apply_options : ℕ → List (Option Setting) → Options → Result Options
apply_options index [] o = ok o
apply_options index (none ∷ rest) o = err (nil_option index)
apply_options index (some setting ∷ rest) o = elim (setting o) [
  | none ↦ err (invalid_option index)
  | some o' ↦ apply_options (index + 1) rest o'
]

-- The options that `Open` goes on with, and the capacity of each shard.
unfoldable pub configure : ℕ → List (Option Setting) → Result (Options × ℕ)
unfolding apply_options
configure procs supplied = do
  o ← apply_options 0 supplied (default_options procs)
  let each = o.capacity / o.shards
  if ltb each entry_overhead then err capacity_per_shard else ok (o, each)
