-- ===== src/Synchronizer/Sync/Heads.antt =====
-- services/synchronizer/src/sync_loop.rs: `HeadTracker`, which waits for the header of a slot at the
-- head of the chain. The wait is cut after a number of wakeups, where it is still waiting.
use digital_objects_network.Synchronizer.Beacon.{slot, BlockHeader}
use digital_objects_network.Synchronizer.Node.{get_beacon_head_header, AppConfig}
use digital_objects_network.Synchronizer.World.{
  Run, Gateway, ask, peek, Wakeup, shut_down, interrupted, head_check, message, stream_down,
}
use digital_objects_network.Prelude.{
  ℕ, zero, suc, Option, none, some, Bool, true, false, if◌then◌else◌, ◌==◌, ltb,
}
use digital_objects_network.Prelude.Exec.{pure, ◌>>=◌}

pub data SlotHeaderState : Type 0 where
  shutdown : SlotHeaderState
  missing : SlotHeaderState
  present : BlockHeader → SlotHeaderState
  waiting : SlotHeaderState

-- Whether the event stream is open stands for the stream.
pub record HeadTracker : Type 0 where
  pub head : BlockHeader
  pub events : Bool

abbrev pub header_state : Option BlockHeader → SlotHeaderState
header_state none = missing
header_state (some header) = present header

module _ {E : Type 0} (gateway : Gateway E) (config : AppConfig) where
  abbrev pub explicit_header : ℕ → Run E SlotHeaderState
  explicit_header at =
      ask (gateway.get_block_header (slot at)) >>= λ header. pure (header_state header)

  abbrev pub state_at_head : ℕ → BlockHeader → Run E (Option SlotHeaderState)
  state_at_head at head =
      if ltb head.slot at
      then pure none
      else if head.slot == at
      then pure (some (present head))
      else (explicit_header at >>= λ state. pure (some state))

  -- The tracker with the new head, and the slot's header once the head has reached the slot.
  unfoldable pub resolve_slot_from_head :
      HeadTracker → ℕ → Run E (HeadTracker × Option SlotHeaderState)
  unfolding get_beacon_head_header
  resolve_slot_from_head tracker at = get_beacon_head_header gateway config >>= λ head.
      state_at_head at head >>= λ state. pure (record tracker { head = head }, state)

  -- The state that was resolved, or else another round.
  abbrev pub settle :
      (HeadTracker → Run E (HeadTracker × SlotHeaderState))
      → HeadTracker × Option SlotHeaderState
      → Run E (HeadTracker × SlotHeaderState)
  settle again (tracker, none) = again tracker
  settle again (tracker, some state) = pure (tracker, state)

  abbrev pub on_wakeup :
      (HeadTracker → Run E (HeadTracker × SlotHeaderState))
      → ℕ
      → HeadTracker
      → Wakeup
      → Run E (HeadTracker × SlotHeaderState)
  on_wakeup again at tracker shut_down = pure (tracker, shutdown)
  on_wakeup again at tracker interrupted = again tracker
  on_wakeup again at tracker head_check = resolve_slot_from_head tracker at >>= settle again
  on_wakeup again at tracker (message none) = again tracker
  on_wakeup again at tracker (message (some head_slot)) =
      if ltb head_slot at
      then again tracker
      else (resolve_slot_from_head tracker at >>= settle again)
  on_wakeup again at tracker (stream_down true) = pure (record tracker { events = false }, shutdown)
  on_wakeup again at tracker (stream_down false) = again (record tracker { events = false })

  -- A round of the loop on a stream that is open.
  abbrev pub next_event :
      (HeadTracker → Run E (HeadTracker × SlotHeaderState))
      → ℕ
      → HeadTracker
      → Run E (HeadTracker × SlotHeaderState)
  next_event again at tracker = peek gateway.wakeup >>= on_wakeup again at tracker

  -- A round, which opens the stream first when there is none.
  abbrev pub round :
      (HeadTracker → Run E (HeadTracker × SlotHeaderState))
      → ℕ
      → HeadTracker
      → Bool
      → Run E (HeadTracker × SlotHeaderState)
  round again at tracker true = next_event again at tracker
  round again at tracker false = ask gateway.subscribe >>= λ u.
      resolve_slot_from_head (record tracker { events = true }) at >>= settle (next_event again at)

  -- The loop of `next_slot_header`.
  unfoldable pub wait_for_slot : ℕ → ℕ → HeadTracker → Run E (HeadTracker × SlotHeaderState)
  unfolding resolve_slot_from_head
  wait_for_slot zero at tracker = pure (tracker, waiting)
  wait_for_slot (suc wakeups) at tracker =
      round (wait_for_slot wakeups at) at tracker tracker.events

  unfoldable pub next_slot_header : ℕ → ℕ → HeadTracker → Run E (HeadTracker × SlotHeaderState)
  unfolding wait_for_slot
  next_slot_header wakeups at tracker =
      if ltb at tracker.head.slot
      then (explicit_header at >>= λ state. pure (tracker, state))
      else wait_for_slot wakeups at tracker
