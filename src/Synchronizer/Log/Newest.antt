-- ===== src/Synchronizer/Log/Newest.antt =====
-- Reads of the log when its rows stand newest first.
use digital_objects_network.Synchronizer.State.{DonState}
use digital_objects_network.Synchronizer.Log.{
  SlotRow, Log, latest, later, slot_state_at_head, don_state_at_head, to_slot_state, map_option,
  flatten, SlotState,
}
use digital_objects_network.Prelude.{
  Bool, List, Option, ◌≡◌, ℕ, some, none, is_some, ◌∷◌, All, if◌then◌else◌, [], refl, Bool-cases,
  ◌⊎◌, ◌<◌, ◌∙◌, inl, ltb, ap, inr, Option-cases, false, arith, true,
}

-- Every row is of an earlier slot.
abbrev pub Before : ℕ → List SlotRow → Type 0
Before slot rows = All (λ (row : SlotRow). row.slot < slot) rows

unfoldable pub NewestFirst : List SlotRow → Type 0
NewestFirst [] = Unit
NewestFirst (row ∷ rows) = Before row.slot rows × NewestFirst rows

later_cases :
    (row : SlotRow) (o : Option SlotRow) (found : SlotRow)
    → later row o ≡ some found
    → (found ≡ row) ⊎ (o ≡ some found)
later_cases row none found e = inl (cc)
later_cases row (some best) found e = elim (Bool-cases (ltb row.slot best.slot)) [
  | inl t ↦ inr (rw t at e)
  | inr f ↦ let e₁ = rw f at e in inl (cc)
]

picked :
    (b : Bool) (row : SlotRow) (o : Option SlotRow) (found : SlotRow)
    → (if b then later row o else o) ≡ some found
    → (found ≡ row) ⊎ (o ≡ some found)
picked true row o found e = later_cases row o found e
picked false row o found e = inr e

-- What holds of every row holds of the latest.
pub All-latest :
    (P : SlotRow → Type 0) (test : SlotRow → Bool) (rows : List SlotRow) (found : SlotRow)
    → All P rows
    → latest test rows ≡ some found
    → P found
unfolding latest
All-latest P test [] found h e = cc
All-latest P test (row ∷ rows) found h e = elim (picked (test row) row (latest test rows) found e) [
  | inl k ↦ rw k h.0
  | inr k ↦ All-latest P test rows found h.1 k
]

-- Of rows that stand newest first, the first that passes the test is the latest.
pub latest-cons :
    (test : SlotRow → Bool) (row : SlotRow) (rows : List SlotRow)
    → Before row.slot rows
    → latest test (row ∷ rows) ≡ (if test row then some row else latest test rows)
unfolding latest
latest-cons test row rows h = elim (Bool-cases (test row)) [
  | inr f ↦ rw f refl
  | inl t ↦ elim (Option-cases (latest test rows)) [
    | inl n ↦ rw t (rw n refl)
    | inr (best, n) ↦
        let k : ltb row.slot best.slot ≡ false =
          ground (arith, All-latest (λ (r : SlotRow). r.slot < row.slot) test rows best h n) in
        rw t (rw n (rw k refl))
  ]
]

abbrev pub or_newest : Option DonState → Option DonState → Option DonState
or_newest none rest = rest
or_newest (some state) rest = some state

-- The state of the newest row that has one.
unfoldable pub newest_state : List SlotRow → Option DonState
newest_state [] = none
newest_state (row ∷ rows) = or_newest row.state (newest_state rows)

pub state_of : Option SlotRow → Option DonState
state_of o = map_option (λ (s : SlotState). s.state) (flatten (map_option to_slot_state o))

one_state :
    (row : SlotRow) (o : Option DonState) (rest : Option SlotRow)
    → row.state ≡ o
    → state_of (if is_some o then some row else rest) ≡ or_newest o (state_of rest)
unfolding state_of
one_state row none rest e = refl
one_state row (some state) rest e = rw e refl

state_of-latest :
    (rows : List SlotRow)
    → NewestFirst rows
    → state_of (latest (λ row. is_some row.state) rows) ≡ newest_state rows
unfolding latest NewestFirst newest_state state_of
state_of-latest [] h = refl
state_of-latest (row ∷ rows) h = rw (latest-cons (λ row. is_some row.state) row rows h.0) (
    one_state row row.state (latest (λ row. is_some row.state) rows) refl
    ∙ ap (or_newest row.state) (state_of-latest rows h.1))

-- The head state is that of the newest row with one.
pub don_state_at_head-newest :
    (log : Log) → NewestFirst log.slots → don_state_at_head log ≡ newest_state log.slots
unfolding don_state_at_head slot_state_at_head state_of
don_state_at_head-newest log h = state_of-latest log.slots h
