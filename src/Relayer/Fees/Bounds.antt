-- ===== src/Relayer/Fees/Bounds.antt =====
-- Bounds on the fee bumps and the backoff of services/relayer/src/worker.rs.
use native.Mathlib.Nat.{pow-suc}
use digital_objects_network.Prelude.{
  Bool-cases, inl, inr, ltb, if◌then◌else◌, ◌%◌, refl, ℕ, zero, suc, ◌+◌, ◌*◌, ◌^◌, ◌-◌, ◌≤◌, ◌≡◌,
  min, max, arith, Option, none, some,
}
use digital_objects_network.Relayer.Fees.{
  apply_bump, bumped_fees, map_bump, backoff_secs, u128_max, u64_max,
}
use digital_objects_network.Relayer.Outside.{FeeEstimate, PendingTxFees}

mul_mono : (a b c : ℕ) → b ≤ c → a * b ≤ a * c
mul_mono a b c h = grind arith

mul_mono_left : (a b c : ℕ) → a ≤ b → a * c ≤ b * c
mul_mono_left a b c h = grind arith

apply_bump_doubles :
    (pct base fee : ℕ)
    → 100 ≤ pct
    → base ≤ fee
    → fee * (100 + pct) ≤ u128_max
    → 2 * base ≤ apply_bump pct fee
unfolding apply_bump
apply_bump_doubles pct base fee h k fits = omega (arith, mul_mono fee 200 (100 + pct) (omega arith))

-- The cap on the blob fee, where the queued transaction has one, is also at least doubled.
abbrev pub BlobDoubles : Option ℕ → Option ℕ → Type 0
BlobDoubles none bumped = bumped ≡ none
BlobDoubles (some fee) none = ⊥
BlobDoubles (some fee) (some bumped) = 2 * fee ≤ bumped

abbrev pub blob_cap : Option ℕ → ℕ
blob_cap none = 0
blob_cap (some fee) = fee

blob_doubles :
    (pct : ℕ) (fee : Option ℕ)
    → 100 ≤ pct
    → blob_cap fee * (100 + pct) ≤ u128_max
    → BlobDoubles fee (map_bump pct fee)
blob_doubles pct none h fits = refl
blob_doubles pct (some fee) h fits = apply_bump_doubles pct fee fee h (omega arith) fits

-- The largest of the fees that are multiplied.
abbrev pub largest_base : FeeEstimate → PendingTxFees → ℕ
largest_base network original =
    let priority = max original.max_priority_fee_per_gas network.max_priority_fee_per_gas in
    max (max original.max_fee_per_gas (network.base_fee_per_gas + priority))
      (blob_cap original.max_fee_per_blob_gas)

-- A multiplier of at least 100 per cent at least doubles every cap of the queued transaction, as
-- blob pools demand of a replacement, and the network's own fees: the priority fee, and the base fee
-- with it. This holds while the largest base times the multiplier fits in a `u128`.
pub bumped_fees_double :
    (pct : ℕ) (network : FeeEstimate) (original : PendingTxFees)
    → 100 ≤ pct
    → largest_base network original * (100 + pct) ≤ u128_max
    → ((2 * original.max_fee_per_gas ≤ (bumped_fees pct network original).max_fee_per_gas)
        × (2 * (network.base_fee_per_gas + network.max_priority_fee_per_gas)
            ≤ (bumped_fees pct network original).max_fee_per_gas))
      × ((2 * original.max_priority_fee_per_gas
            ≤ (bumped_fees pct network original).max_priority_fee_per_gas)
          × (2 * network.max_priority_fee_per_gas
              ≤ (bumped_fees pct network original).max_priority_fee_per_gas))
      × BlobDoubles original.max_fee_per_blob_gas
          (bumped_fees pct network original).max_fee_per_blob_gas
unfolding bumped_fees
bumped_fees_double pct network original h fits =
    let top = largest_base network original in
    let within : (fee : ℕ) → fee ≤ top → fee * (100 + pct) ≤ u128_max =
      λ fee le. omega (arith, mul_mono_left fee top (100 + pct) le) in
    let priority : ℕ = max original.max_priority_fee_per_gas network.max_priority_fee_per_gas in
    let small : top ≤ u128_max = omega (arith, mul_mono top 1 (100 + pct) (omega arith)) in
    let tip = λ (base : ℕ) (le : base ≤ priority).
      apply_bump_doubles pct base priority h le (within priority (omega arith)) in
    (
      (
        apply_bump_doubles pct original.max_fee_per_gas _ h (omega arith) (within _ (omega arith)),
        apply_bump_doubles pct (network.base_fee_per_gas + network.max_priority_fee_per_gas) _ h
            (omega arith) (within _ (omega arith)),
      ),
      (
        tip original.max_priority_fee_per_gas (omega arith),
        tip network.max_priority_fee_per_gas (omega arith),
      ),
      blob_doubles pct original.max_fee_per_blob_gas h
          (within (blob_cap original.max_fee_per_blob_gas) (omega arith)),
    )

-- The wait after some number of retries: the first is the initial one, each of the next twenty is
-- twice the one before, and the maximum cuts each of them off.
pub doubling_wait : ℕ → ℕ → ℕ → ℕ
doubling_wait initial max_secs zero = min initial max_secs
doubling_wait initial max_secs (suc retries) =
    let wait = doubling_wait initial max_secs retries in
    if ltb retries 20 then min (2 * wait) max_secs else wait

doubling_wait-shift :
    (initial max_secs retries : ℕ)
    → doubling_wait initial max_secs retries ≡ min (initial * 2 ^ min retries 20) max_secs
unfolding doubling_wait
doubling_wait-shift initial max_secs zero = omega arith
doubling_wait-shift initial max_secs (suc retries) =
    let before = doubling_wait-shift initial max_secs retries in
    elim (Bool-cases (ltb retries 20)) [
      | inl t ↦
          let a : min retries 20 ≡ retries = ground arith in
          let b : min (suc retries) 20 ≡ suc retries = ground arith in
          let before₁ = rw a at before in
          let e : initial * (2 ^ retries * 2) ≡ 2 * (initial * 2 ^ retries) = grind arith in
          rw (t, before₁, b, pow-suc, e) (omega arith)
      | inr f ↦
          let a : min (suc retries) 20 ≡ min retries 20 = ground arith in rw (f, before, a) refl
    ]

-- The backoff after an attempt is the wait of the doubling schedule, whose maximum is a `u64`: no
-- shift and no product wraps on the way, for any number of attempts.
pub backoff_secs-doubling_wait :
    (retries initial max_secs : ℕ)
    → max_secs ≤ u64_max
    → backoff_secs (suc retries) initial max_secs ≡ doubling_wait initial max_secs retries
unfolding backoff_secs
backoff_secs-doubling_wait retries initial max_secs h =
    let shift : min (suc retries - 1) 20 % 64 ≡ min retries 20 = omega arith in
    rw (shift, doubling_wait-shift initial max_secs retries) (omega arith)
