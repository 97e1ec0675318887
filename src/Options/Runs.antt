-- ===== src/Options/Runs.antt =====
-- The theorems on shard counts at concrete counts.
use go.Prelude.{ℕ, ◌+◌, ◌^◌, ◌≤◌, ◌<◌, ◌≡◌, ◌↔◌, ◌⊎◌, some}
use go.Prelude.Int.{pos}
use go.Options.{default_options, with_shards}
use go.Options.Power.{with_shards_iff, default_options_shards}

with_shards_iff_example : (with_shards (pos 6) (default_options 2) ≡ some (default_options 2)) ↔ (
    (k : ℕ) × (pos 6 ≡ pos (2 ^ k))
    × (default_options 2 ≡ record (default_options 2) { shards = 2 ^ k }))
with_shards_iff_example = with_shards_iff (pos 6) (default_options 2) (default_options 2)

default_options_shards_example :
    (k : ℕ) × ((default_options 12).shards ≡ 2 ^ k) × (12 ≤ 2 ^ k) × ((k ≡ 0) ⊎ (2 ^ k < 12 + 12))
default_options_shards_example = default_options_shards 12
