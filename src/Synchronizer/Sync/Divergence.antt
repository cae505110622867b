-- ===== src/Synchronizer/Sync/Divergence.antt =====
-- The search for the slot to rewind to, on a chain that stands still.
use digital_objects_network.Synchronizer.Beacon.{slot, BlockHeader}
use digital_objects_network.Synchronizer.Log.{Log, slot_root, map_option}
use digital_objects_network.Synchronizer.Node.{Node}
use digital_objects_network.Synchronizer.Sync.{is_common, find_divergence_slot}
use digital_objects_network.Synchronizer.World.{World}
use digital_objects_network.Prelude.{
  ℕ, zero, suc, Option, none, Bool, true, false, ok, ◌≡◌, ◌≤◌, ◌⊎◌, inl, inr, refl, leb, ◌+◌, sym,
  arith, Bool-cases,
}

-- The block of a slot is both in the log and in the chain.
abbrev pub are_common : Log → (ℕ → Option BlockHeader) → ℕ → Bool
are_common log chain s =
    is_common (slot_root log s) (map_option (λ (h : BlockHeader). h.root) (chain s))

-- Log and chain share no block in the `count` slots from `start` on.
unfoldable pub NoneCommon : Log → (ℕ → Option BlockHeader) → ℕ → ℕ → Type 0
NoneCommon log chain start zero = Unit {0}
NoneCommon log chain start (suc n) =
    (are_common log chain (start + n) ≡ false) × NoneCommon log chain start n

-- `start` is the first slot, or follows the last slot before `current` that log and chain share.
abbrev pub Diverges : ℕ → ℕ → Log → (ℕ → Option BlockHeader) → ℕ → Type 0
Diverges init current log chain start =
    (init ≤ start)
    × ((start ≡ init) ⊎ ((s : ℕ) × (start ≡ suc s) × (are_common log chain s ≡ true)))
    × ((count : ℕ) × (current ≡ start + count) × NoneCommon log chain start count)

one_more :
    (init prev : ℕ) (log : Log) (chain : ℕ → Option BlockHeader) (start : ℕ)
    → are_common log chain prev ≡ false
    → Diverges init prev log chain start
    → Diverges init (suc prev) log chain start
unfolding NoneCommon
one_more init prev log chain start f (low, first, (n, e, apart)) =
    (low, first, (suc n, omega arith, (rw (sym e) f, apart)))

module _ {Arr Set MerkleProof Err Proof E : Type 0} (node : Node Arr Set MerkleProof Err Proof E)
    (chain : ℕ → Option BlockHeader)
    (stable : (s : ℕ) (e : E) → (node.gateway.get_block_header (slot s) e).0 ≡ ok (chain s))
    (no_fault : (e : E) → (node.gateway.db_fault e).0 ≡ none) where
  -- The search for the slot to rewind to ends with a slot from INIT_START_SLOT to the current one,
  -- and leaves the log alone. The slot is INIT_START_SLOT, or the log and the live chain have the
  -- same block in the slot before; they share none in the slots from it to the one before the
  -- current. The chain does not change during the search, the clients and the database do not fail,
  -- and the current slot is not before INIT_START_SLOT.
  pub find_divergence_slot_last :
      (current : ℕ) (w : World E)
      → node.config.init_start_slot ≤ current
      → ((find_divergence_slot node current w).1.log ≡ w.log)
        × (start : ℕ) × ((find_divergence_slot node current w).0 ≡ ok start)
        × Diverges node.config.init_start_slot current w.log chain start
  unfolding find_divergence_slot NoneCommon
  find_divergence_slot_last zero w l =
      (refl, node.config.init_start_slot, refl, (omega arith, inl refl, (0, omega arith, tt)))
  find_divergence_slot_last (suc prev) w l =
      elim (Bool-cases (leb (suc prev) node.config.init_start_slot)) [
        | inl t ↦
            let e : suc prev ≡ node.config.init_start_slot + 0 = ground arith in
            rw t (refl, node.config.init_start_slot, refl, (omega arith, inl refl, (0, e, tt)))
        | inr f ↦
            let l₁ : node.config.init_start_slot ≤ prev = ground arith in
            let env = (node.gateway.db_fault w.env).1 in
            rw (f, no_fault w.env, stable prev env)
              (elim (Bool-cases (are_common w.log chain prev)) [
                | inl t₁ ↦
                    rw t₁ (refl, suc prev, refl, (l, inr (prev, refl, t₁), (0, omega arith, tt)))
                | inr f₁ ↦
                    let after : World E = record {
                      log = w.log;
                      env = (node.gateway.get_block_header (slot prev) env).1;
                    } in
                    let (same, start, found, d) = find_divergence_slot_last prev after l₁ in
                    rw f₁ (
                      same,
                      start,
                      found,
                      one_more node.config.init_start_slot prev w.log chain start f₁ d,
                    )
              ])
      ]
