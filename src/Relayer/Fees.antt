-- ===== src/Relayer/Fees.antt =====
-- The arithmetic of services/relayer/src/worker.rs: fee bumps on `u128` and the retry backoff on
-- `u64`. A plain `+` wraps, as in a release build.
pub mod Bounds
use digital_objects_network.Prelude.{ℕ, ◌+◌, ◌-◌, ◌*◌, ◌/◌, ◌%◌, ◌^◌, min, max, Option, none, some}
use digital_objects_network.Relayer.Outside.{FeeEstimate, PendingTxFees, FeeOverrides}

abbrev pub u128_max : ℕ
u128_max = 2 ^ 128 - 1

abbrev pub u64_max : ℕ
u64_max = 2 ^ 64 - 1

-- `base.saturating_mul(100 + multiplier_pct as u128) / 100`
pub apply_bump : ℕ → ℕ → ℕ
apply_bump multiplier_pct base = min (base * (100 + multiplier_pct)) u128_max / 100

abbrev pub map_bump : ℕ → Option ℕ → Option ℕ
map_bump multiplier_pct none = none
map_bump multiplier_pct (some fee) = some (apply_bump multiplier_pct fee)

-- The caps of the replacement, from the queued transaction's and the network's.
pub bumped_fees : ℕ → FeeEstimate → PendingTxFees → FeeOverrides
bumped_fees multiplier_pct network original =
    let base_priority = max original.max_priority_fee_per_gas network.max_priority_fee_per_gas in
    let base_max_fee =
      max original.max_fee_per_gas ((network.base_fee_per_gas + base_priority) % 2 ^ 128) in
    record {
      max_fee_per_gas = apply_bump multiplier_pct base_max_fee;
      max_priority_fee_per_gas = apply_bump multiplier_pct base_priority;
      max_fee_per_blob_gas = map_bump multiplier_pct original.max_fee_per_blob_gas;
    }

-- `1u64 << shift` takes the shift modulo 64, as a release build does.
pub backoff_secs : ℕ → ℕ → ℕ → ℕ
backoff_secs attempt_count initial max_secs =
    let shift = min (attempt_count - 1) 20 in
    let exp = 2 ^ (shift % 64) in min (min (initial * exp) u64_max) max_secs
