-- ===== src/Synchronizer/Examples/Statuses.antt =====
-- The theorem on the status lookups at concrete data.
use digital_objects_network.Synchronizer.Examples.{hash_one}
use digital_objects_network.Synchronizer.Log.{SlotRow, StatusRow, find_slot}
use digital_objects_network.Synchronizer.Log.Statuses.{carries, pick_status, pick_status_applied}
use digital_objects_network.Prelude.{List, [], ◌∷◌, ◌++◌, some, none, ◌≡◌, true, refl, hash_eq}

abbrev slots : List SlotRow
slots =
    record { slot = 6; block_root = some 60; state = none }
    ∷ record { slot = 5; block_root = some 50; state = none }
    ∷ []

-- The transaction was applied in slot 5; a copy of it was rejected in slot 6.
abbrev applied_row : StatusRow
applied_row = record {
  slot = 5;
  tx_hash = 1;
  tx_blob_index = 0;
  tx_final = some hash_one;
  error = none;
}

abbrev rejected_row : StatusRow
rejected_row = record {
  slot = 6;
  tx_hash = 2;
  tx_blob_index = 0;
  tx_final = some hash_one;
  error = some (120 ∷ []);
}

applied_carries : carries hash_one slots applied_row ≡ true
unfolding find_slot hash_eq
applied_carries = refl

pick_status_applied_example :
    (best : StatusRow) × (pick_status hash_one slots ((rejected_row ∷ []) ++ applied_row ∷ [])
      ≡ some best)
    × (carries hash_one slots best ≡ true)
    × (best.error ≡ none)
pick_status_applied_example =
    pick_status_applied hash_one slots (rejected_row ∷ []) [] applied_row applied_carries refl
