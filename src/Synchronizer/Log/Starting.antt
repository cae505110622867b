-- ===== src/Synchronizer/Log/Starting.antt =====
-- The check of `StateLogDb::connect` that a log goes with INIT_START_SLOT.
use digital_objects_network.Synchronizer.Log.{
  SlotRow, Log, LogError, zero_start_slot, changed_start_slot,
}
use digital_objects_network.Prelude.{
  ℕ, List, [], ◌∷◌, Option, none, some, Result, ok, err, if◌then◌else◌, leb, ◌==◌,
}

abbrev pub lesser : ℕ → Option ℕ → Option ℕ
lesser slot none = some slot
lesser slot (some least) = if leb slot least then some slot else some least

-- SELECT MIN(slot)
unfoldable pub min_slot : List SlotRow → Option ℕ
min_slot [] = none
min_slot (row ∷ rows) = lesser row.slot (min_slot rows)

unfoldable pub first_committed_slot : Log → Option ℕ
unfolding min_slot
first_committed_slot log = min_slot log.slots

abbrev pub starts_at : ℕ → Option ℕ → Result LogError (Unit {0})
starts_at init none = ok tt
starts_at init (some first) = if first == init then ok tt else err (changed_start_slot first)

unfoldable pub connect : ℕ → Log → Result LogError (Unit {0})
unfolding first_committed_slot
connect init log =
    if leb 1 init then starts_at init (first_committed_slot log) else err zero_start_slot
