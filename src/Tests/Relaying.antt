-- ===== src/Tests/Relaying.antt =====
-- The relay at a concrete input: a wager is sent, the acknowledgement is lost, and the next relay sends it
-- again.
use call_it.Prelude.{
  pos, Str, bytes, str_eq, List, [], ◌∷◌, ◌++◌, false, true, some, ok, ◌≡◌, refl, arith,
}
use call_it.Redis.Keys.{Text, str, int}
use call_it.Redis.Server.{Entry}
use call_it.Events.{Event, wager_placed, decode, topic_wagers_placed}
use call_it.Relay.{Bridge, Replies, once, recover, claim_orphans, ensure_group, run}
use call_it.Relay.Streams.{StreamMessage, Lane}
use call_it.Relay.Reference.{group_in_memory, producer_in_memory}
use call_it.Relay.Sent.{Sent}
use call_it.Relay.Invariant.{lane_of}
use call_it.Relay.Claims.{Kept}
use call_it.Relay.Pending.{IsOwned}
use call_it.Relay.Orphans.{claim_orphans-IsOwned}
use call_it.Relay.Runs.{Run, down, draining, running, begun, started, recovered, relayed}
use call_it.Relay.Order.{IsNew, relay_ordered}
use call_it.Relay.CatchingUp.{arrives, all_arrive}
use call_it.Relay.Complete.{run-Sent}

abbrev text_of : Text → Str
text_of (str s) = s
text_of _ = []

abbrev wager_fields : Entry
wager_fields =
    (bytes "type", str (bytes "wager_placed"))
    ∷ (bytes "room_id", str (bytes "r"))
    ∷ (bytes "round_id", str (bytes "q"))
    ∷ (bytes "user", str (bytes "ann"))
    ∷ (bytes "idempotency_key", str (bytes "k1"))
    ∷ (bytes "outcome", int (pos 1))
    ∷ (bytes "amount", int (pos 40))
    ∷ (bytes "balance", int (pos 60))
    ∷ []

abbrev the_wager : Event
the_wager = wager_placed (record {
  room_id = bytes "r";
  round_id = bytes "q";
  user_id = bytes "ann";
  idempotency_key = bytes "k1";
  outcome = pos 1;
  amount = pos 40;
  balance = pos 60;
})

abbrev entry : StreamMessage
entry = record { id = 1; fields = wager_fields }

entry_decodes : decode text_of wager_fields ≡ ok the_wager
unfolding decode str_eq
entry_decodes = refl

abbrev room_lane : Lane
room_lane = record { topic = topic_wagers_placed; key = bytes "r" }

abbrev TestBridge : Type 0
TestBridge = Bridge text_of group_in_memory producer_in_memory

abbrev new_bridge : TestBridge
new_bridge = record {
  source = record { entries = entry ∷ []; created = false; waiting = []; pending = [] };
  sink = [];
}

new_bridge-IsNew : IsNew text_of group_in_memory producer_in_memory new_bridge
new_bridge-IsNew = record { absent = refl; rising = omega arith; unsent = λ lane. refl }

abbrev first_relay : Str
first_relay = bytes "a"

abbrev lost_ack : Replies
lost_ack = record { read = true; ack = false }

-- What the first relay leaves: the wager is sent and pending.
abbrev left_bridge : TestBridge
left_bridge = record {
  source = record {
    entries = entry ∷ [];
    created = true;
    waiting = [];
    pending = record { consumer = first_relay; message = entry } ∷ [];
  };
  sink = the_wager ∷ [];
}

abbrev ready : TestBridge
ready = record {
  source = record { entries = entry ∷ []; created = true; waiting = entry ∷ []; pending = [] };
  sink = [];
}

ran_begun : Run text_of group_in_memory producer_in_memory new_bridge down ready
unfolding ensure_group
ran_begun = begun

ran_started : Run text_of group_in_memory producer_in_memory new_bridge (draining first_relay) ready
unfolding ensure_group claim_orphans
ran_started = started 2 0 first_relay refl ran_begun

ran_drained : Run text_of group_in_memory producer_in_memory new_bridge (running first_relay) ready
unfolding recover
ran_drained = recovered first_relay arrives ran_started

ran_left : Run text_of group_in_memory producer_in_memory new_bridge down left_bridge
unfolding once decode str_eq
ran_left = relayed first_relay lost_ack ran_drained

claim_orphans-IsOwned_example :
    ((claim_orphans text_of group_in_memory producer_in_memory 2 (bytes "b") 100 left_bridge).0
      ≡ some 1)
    × IsOwned
        (bytes "b")
        (claim_orphans text_of group_in_memory producer_in_memory 2
          (bytes "b")
          100
          left_bridge).1.source.pending
    × Kept text_of group_in_memory producer_in_memory left_bridge.source
        (claim_orphans text_of group_in_memory producer_in_memory 2
          (bytes "b")
          100
          left_bridge).1.source
claim_orphans-IsOwned_example =
    claim_orphans-IsOwned text_of group_in_memory producer_in_memory 2 (bytes "b") 100 left_bridge
      (omega arith) (omega arith) (omega arith)

relay_ordered_example :
    (sent unsent : List Event) × (again : List Event) × (lane_of text_of room_lane (entry ∷ [])
      ≡ sent ++ unsent)
    × Sent sent (producer_in_memory.written room_lane (the_wager ∷ []))
    × (lane_of text_of room_lane (entry ∷ []) ≡ again ++ unsent)
relay_ordered_example =
    relay_ordered text_of group_in_memory producer_in_memory new_bridge left_bridge down room_lane
      new_bridge-IsNew ran_left

run-Sent_example :
    ((run text_of group_in_memory producer_in_memory 2
        (bytes "b")
        (all_arrive 2)
        (all_arrive 1)
        left_bridge).0
      ≡ some (ok tt))
    × Sent (lane_of text_of room_lane (entry ∷ [])) (
        producer_in_memory.written room_lane
          (run text_of group_in_memory producer_in_memory 2
            (bytes "b")
            (all_arrive 2)
            (all_arrive 1)
            left_bridge).1.sink)
run-Sent_example =
    run-Sent text_of group_in_memory producer_in_memory new_bridge left_bridge 2 2 1 (bytes "b")
      room_lane new_bridge-IsNew ran_left (λ evs t. refl) ((the_wager, entry_decodes), tt)
      (omega arith) (omega arith) (omega arith)
