-- ===== src/Synchronizer/Sync/Fetched.antt =====
-- What a batch brings is of its slots, in order, and what the head tracker finds is of its slot.
use digital_objects_network.Synchronizer.Beacon.{slot, BlockHeader, Block}
use digital_objects_network.Synchronizer.Node.{AppConfig}
use digital_objects_network.Synchronizer.Sync.Batch as Batch
use digital_objects_network.Synchronizer.Sync.Batch.{
  FetchedSlot, SlotBlock, block_at, fetch_blocks, context_of, fetch_contexts, fetch_batch,
  slots_from,
}
use digital_objects_network.Synchronizer.Sync.Heads.{
  HeadTracker, SlotHeaderState, present, header_state, explicit_header, resolve_slot_from_head,
  settle, on_wakeup, next_event, round, round, wait_for_slot, next_slot_header, state_at_head,
}
use digital_objects_network.Synchronizer.Sync.Reads.{
  Reads, bind_Reads, pure_Reads, ask_Reads, peek_Reads, if_Reads,
}
use digital_objects_network.Synchronizer.Sync.Fetches.{
  AnswersAsked, get_beacon_head_header_Reads, get_beacon_block_Reads, fetch_slot_context_Reads,
}
use digital_objects_network.Synchronizer.World.{
  Gateway, Run, Wakeup, shut_down, interrupted, head_check, message, stream_down,
}
use digital_objects_network.Prelude.{
  ℕ, zero, suc, List, [], ◌∷◌, Option, none, some, true, false, ok, ◌≡◌, refl, ◌∙◌, arith, ◌==◌,
  ltb, Bool,
}

abbrev pub HeaderOf : ℕ → Option (BlockHeader × Block) → Type 0
HeaderOf at none = Unit {0}
HeaderOf at (some (header, block)) = header.slot ≡ at

unfoldable pub BlocksFrom : ℕ → List SlotBlock → Type 0
BlocksFrom first [] = Unit {0}
BlocksFrom first (b ∷ bs) = (b.slot ≡ first) × HeaderOf first b.fetched × BlocksFrom (suc first) bs

abbrev pub IsOf : ℕ → FetchedSlot → Type 0
IsOf at (Batch.missing s) = s ≡ at
IsOf at (Batch.present s header context) = (s ≡ at) × (context.slot ≡ at)

unfoldable pub FetchedFrom : ℕ → List FetchedSlot → Type 0
FetchedFrom first [] = Unit {0}
FetchedFrom first (one ∷ rest) = IsOf first one × FetchedFrom (suc first) rest

abbrev pub FoundOf : ℕ → SlotHeaderState → Type 0
FoundOf at (present header) = header.slot ≡ at
FoundOf at _ = Unit {0}

abbrev pub ResolvedOf : ℕ → Option SlotHeaderState → Type 0
ResolvedOf at none = Unit {0}
ResolvedOf at (some state) = FoundOf at state

module _ {E : Type 0} (gateway : Gateway E) (config : AppConfig)
    (asked : AnswersAsked gateway) where
  block_at_Reads :
      (at : ℕ) (header : Option BlockHeader)
      → ((e : E) × ((gateway.get_block_header (slot at) e).0 ≡ ok header))
      → Reads (block_at gateway config header) (HeaderOf at)
  block_at_Reads at none g = pure_Reads tt
  block_at_Reads at (some header) (e, g) =
      bind_Reads (get_beacon_block_Reads gateway config header.root)
        λ block u. pure_Reads (asked at e header g)

  fetch_blocks_Reads :
      (first n : ℕ) → Reads (fetch_blocks gateway config (slots_from first n)) (BlocksFrom first)
  unfolding fetch_blocks slots_from BlocksFrom
  fetch_blocks_Reads first zero = pure_Reads tt
  fetch_blocks_Reads first (suc n) = bind_Reads (ask_Reads _) λ header g.
      bind_Reads (block_at_Reads first header g)
        λ fetched h. bind_Reads (fetch_blocks_Reads (suc first) n) λ rest k. pure_Reads (refl, h, k)

  context_of_Reads :
      (blocks : List SlotBlock) (at s : ℕ) (fetched : Option (BlockHeader × Block))
      → s ≡ at
      → HeaderOf at fetched
      → Reads (context_of gateway config blocks s fetched) (IsOf at)
  context_of_Reads blocks at s none e h = pure_Reads e
  context_of_Reads blocks at s (some (header, block)) e h =
      bind_Reads (fetch_slot_context_Reads gateway config header block _)
        λ context g. pure_Reads (e, g ∙ h)

  fetch_contexts_Reads :
      (blocks : List SlotBlock) (first : ℕ) (bs : List SlotBlock)
      → BlocksFrom first bs
      → Reads (fetch_contexts gateway config blocks bs) (FetchedFrom first)
  unfolding fetch_contexts BlocksFrom FetchedFrom
  fetch_contexts_Reads blocks first [] h = pure_Reads tt
  fetch_contexts_Reads blocks first (b ∷ bs) (e, h, k) =
      bind_Reads (context_of_Reads blocks first b.slot b.fetched e h) λ one g.
        bind_Reads (fetch_contexts_Reads blocks (suc first) bs k) λ rest g₁. pure_Reads (g, g₁)

  pub fetch_batch_Reads :
      (first n : ℕ) → Reads (fetch_batch gateway config (slots_from first n)) (FetchedFrom first)
  unfolding fetch_batch
  fetch_batch_Reads first n =
      bind_Reads (fetch_blocks_Reads first n) λ blocks g. fetch_contexts_Reads blocks first blocks g

  header_state-FoundOf :
      (at : ℕ) (header : Option BlockHeader)
      → ((e : E) × ((gateway.get_block_header (slot at) e).0 ≡ ok header))
      → FoundOf at (header_state header)
  header_state-FoundOf at none g = tt
  header_state-FoundOf at (some header) (e, g) = asked at e header g

  explicit_header_Reads : (at : ℕ) → Reads (explicit_header gateway config at) (FoundOf at)
  explicit_header_Reads at =
      bind_Reads (ask_Reads _) λ header g. pure_Reads (header_state-FoundOf at header g)

  state_at_head_Reads :
      (at : ℕ) (head : BlockHeader) → Reads (state_at_head gateway config at head) (ResolvedOf at)
  state_at_head_Reads at head =
      if_Reads (ltb head.slot at) (λ e. pure_Reads tt)
        λ e.
          if_Reads (head.slot == at) (λ (e₁ : (head.slot == at) ≡ true). pure_Reads (ground arith))
            λ e₁. bind_Reads (explicit_header_Reads at) λ state h. pure_Reads h

  resolve_slot_from_head_Reads :
      (tracker : HeadTracker) (at : ℕ)
      → Reads
          (resolve_slot_from_head gateway config tracker at)
          (λ (r : HeadTracker × Option SlotHeaderState). ResolvedOf at r.1)
  unfolding resolve_slot_from_head
  resolve_slot_from_head_Reads tracker at =
      bind_Reads (get_beacon_head_header_Reads gateway config)
        λ head g. bind_Reads (state_at_head_Reads at head) λ state h. pure_Reads h

  settle_Reads :
      (at : ℕ) (again : HeadTracker → Run E (HeadTracker × SlotHeaderState))
      → ((tracker : HeadTracker) → Reads (again tracker) (λ r. FoundOf at r.1))
      → (r : HeadTracker × Option SlotHeaderState) → ResolvedOf at r.1
      → Reads (settle gateway config again r) (λ r. FoundOf at r.1)
  settle_Reads at again k (tracker, none) h = k tracker
  settle_Reads at again k (tracker, some state) h = pure_Reads h

  on_wakeup_Reads :
      (at : ℕ) (again : HeadTracker → Run E (HeadTracker × SlotHeaderState))
      → ((tracker : HeadTracker) → Reads (again tracker) (λ r. FoundOf at r.1))
      → (tracker : HeadTracker) (wakeup : Wakeup)
      → Reads (on_wakeup gateway config again at tracker wakeup) (λ r. FoundOf at r.1)
  on_wakeup_Reads at again k tracker shut_down = pure_Reads tt
  on_wakeup_Reads at again k tracker interrupted = k tracker
  on_wakeup_Reads at again k tracker head_check =
      bind_Reads (resolve_slot_from_head_Reads tracker at) (settle_Reads at again k)
  on_wakeup_Reads at again k tracker (message none) = k tracker
  on_wakeup_Reads at again k tracker (message (some s)) =
      if_Reads _ (λ e. k tracker)
        λ e. bind_Reads (resolve_slot_from_head_Reads tracker at) (settle_Reads at again k)
  on_wakeup_Reads at again k tracker (stream_down true) = pure_Reads tt
  on_wakeup_Reads at again k tracker (stream_down false) = k (record tracker { events = false })

  next_event_Reads :
      (at : ℕ) (again : HeadTracker → Run E (HeadTracker × SlotHeaderState))
      → ((tracker : HeadTracker) → Reads (again tracker) (λ r. FoundOf at r.1))
      → (tracker : HeadTracker)
      → Reads (next_event gateway config again at tracker) (λ r. FoundOf at r.1)
  next_event_Reads at again k tracker =
      bind_Reads (peek_Reads gateway.wakeup) λ wakeup g. on_wakeup_Reads at again k tracker wakeup

  round_Reads :
      (at : ℕ) (again : HeadTracker → Run E (HeadTracker × SlotHeaderState))
      → ((tracker : HeadTracker) → Reads (again tracker) (λ r. FoundOf at r.1))
      → (tracker : HeadTracker) (events : Bool)
      → Reads (round gateway config again at tracker events) (λ r. FoundOf at r.1)
  round_Reads at again k tracker true = next_event_Reads at again k tracker
  round_Reads at again k tracker false = bind_Reads (ask_Reads gateway.subscribe) λ u g.
      bind_Reads (resolve_slot_from_head_Reads (record tracker { events = true }) at)
        (settle_Reads at (next_event gateway config again at) (next_event_Reads at again k))

  wait_for_slot_Reads :
      (wakeups at : ℕ) (tracker : HeadTracker)
      → Reads (wait_for_slot gateway config wakeups at tracker) (λ r. FoundOf at r.1)
  unfolding wait_for_slot
  wait_for_slot_Reads zero at tracker = pure_Reads tt
  wait_for_slot_Reads (suc n) at tracker =
      round_Reads at (wait_for_slot gateway config n at) (wait_for_slot_Reads n at) tracker
        tracker.events

  pub next_slot_header_Reads :
      (wakeups at : ℕ) (tracker : HeadTracker)
      → Reads (next_slot_header gateway config wakeups at tracker) (λ r. FoundOf at r.1)
  unfolding next_slot_header
  next_slot_header_Reads wakeups at tracker =
      if_Reads (ltb at tracker.head.slot)
        (λ e. bind_Reads (explicit_header_Reads at) λ state h. pure_Reads h)
        λ e. wait_for_slot_Reads wakeups at tracker
