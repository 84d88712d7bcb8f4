-- ===== src/Relay/Streams.antt =====
-- What the relay talks to: the consumer group of a Redis stream and the producer of a Kafka topic. Both
-- are parameters, interfaces with the documented behaviour of the calls that the relay makes.
use call_it.Prelude.{
  ℕ, ltb, ◌==◌, Str, str_eq, List, [], ◌∷◌, ◌++◌, take, drop, Bool, true, false, not, ◌&&◌, ◌||◌,
  ◌≡◌, if◌then◌else◌, map,
}
use call_it.Redis.Server.{Entry}
use call_it.Events.{Event, topic, partition_key}

-- An entry of the stream with its ID. The server gives out IDs in rising order.
pub record StreamMessage : Type 0 where
  pub id : ℕ
  pub fields : Entry

-- A message that was delivered to a consumer, which has not acknowledged it yet.
pub record Delivered : Type 0 where
  pub consumer : Str
  pub message : StreamMessage

-- What the server knows of the stream and its group: the entries, whether the group is there, what it
-- has not delivered, and what is pending, by ID.
pub record GroupView : Type 0 where
  pub entries : List StreamMessage
  pub created : Bool
  pub waiting : List StreamMessage
  pub pending : List Delivered

abbrev pub messages_of : List Delivered → List StreamMessage
messages_of = map (λ (d : Delivered). d.message)

abbrev pub deliver : Str → List StreamMessage → List Delivered
deliver consumer [] = []
deliver consumer (m ∷ rest) = record { consumer = consumer; message = m } ∷ deliver consumer rest

-- What is pending for one consumer.
abbrev pub own : Str → List Delivered → List StreamMessage
own consumer [] = []
own consumer (d ∷ rest) =
    let others = own consumer rest in
    if str_eq d.consumer consumer then d.message ∷ others else others

abbrev pub has_id : ℕ → List ℕ → Bool
has_id i [] = false
has_id i (j ∷ rest) = (i == j) || has_id i rest

abbrev pub drop_ids : List ℕ → List Delivered → List Delivered
drop_ids ids [] = []
drop_ids ids (d ∷ rest) =
    let kept = drop_ids ids rest in if has_id d.message.id ids then kept else d ∷ kept

-- The pending messages before an ID, and the others.
abbrev pub before : ℕ → List Delivered → List Delivered
before start [] = []
before start (d ∷ rest) =
    let shorter = before start rest in if ltb d.message.id start then d ∷ shorter else []

abbrev pub from : ℕ → List Delivered → List Delivered
from start [] = []
from start (d ∷ rest) =
    let later = from start rest in if ltb d.message.id start then later else d ∷ rest

-- The cursor of XAUTOCLAIM: the ID that the next scan starts from, or 0-0 at the end.
abbrev pub cursor : List Delivered → ℕ
cursor [] = 0
cursor (d ∷ rest) = d.message.id

-- XADD, XGROUP CREATE from 0, XREADGROUP with > and with 0, XACK, XAUTOCLAIM with no idle time.
pub record Group : Type 1 where
  pub T : Type 0
  pub view : T → GroupView
  pub xadd : StreamMessage → T → T
  pub xgroup_create : T → Bool × T
  pub xreadgroup_new : Str → ℕ → T → List StreamMessage × T
  pub xreadgroup_own : Str → ℕ → T → List StreamMessage
  pub xack : List ℕ → T → T
  pub xautoclaim : Str → ℕ → ℕ → T → List StreamMessage × ℕ × T
  pub view-xadd :
      (m : StreamMessage) (t : T)
      → view (xadd m t) ≡ record (view t) {
        entries = (view t).entries ++ (m ∷ []);
        waiting = (view t).waiting ++ (m ∷ []);
      }
  -- A group that is there already is an error, BUSYGROUP.
  pub xgroup_create-busy : (t : T) → (xgroup_create t).0 ≡ not (view t).created
  pub view-xgroup_create :
      (t : T)
      → view (xgroup_create t).1 ≡ (
          if (view t).created
          then view t
          else record (view t) { created = true; waiting = (view t).entries; pending = [] })
  pub xreadgroup_new-take :
      (c : Str) (n : ℕ) (t : T) → (xreadgroup_new c n t).0 ≡ take n (view t).waiting
  pub view-xreadgroup_new :
      (c : Str) (n : ℕ) (t : T)
      → view (xreadgroup_new c n t).1 ≡ record (view t) {
        waiting = drop n (view t).waiting;
        pending = (view t).pending ++ deliver c (take n (view t).waiting);
      }
  pub xreadgroup_own-take :
      (c : Str) (n : ℕ) (t : T) → xreadgroup_own c n t ≡ take n (own c (view t).pending)
  pub view-xack :
      (ids : List ℕ) (t : T)
      → view (xack ids t) ≡ record (view t) { pending = drop_ids ids (view t).pending }
  pub xautoclaim-take :
      (c : Str) (start n : ℕ) (t : T)
      → (xautoclaim c start n t).0 ≡ messages_of (take n (from start (view t).pending))
  pub xautoclaim-cursor :
      (c : Str) (start n : ℕ) (t : T)
      → (xautoclaim c start n t).1 ≡ cursor (drop n (from start (view t).pending))
  pub view-xautoclaim :
      (c : Str) (start n : ℕ) (t : T)
      → view (xautoclaim c start n t).2 ≡ record (view t) {
        pending =
            before start (view t).pending
            ++ (deliver c (messages_of (take n (from start (view t).pending)))
                ++ drop n (from start (view t).pending));
      }

-- What a producer may have written of a batch: some of its first events, perhaps more than once, for it
-- tries again.
pub data Attempts (batch : List Event) : List Event → Type 0 where
  none_written : Attempts batch []
  some_written : {l : List Event} (n : ℕ) → Attempts batch l → Attempts batch (l ++ take n batch)

-- The events of one topic and one partition key.
pub record Lane : Type 0 where
  pub topic : Str
  pub key : Str

abbrev pub in_lane : Lane → List Event → List Event
in_lane lane [] = []
in_lane lane (e ∷ rest) =
    let others = in_lane lane rest in
    if str_eq (topic e) lane.topic && str_eq (partition_key e) lane.key then e ∷ others else others

-- The producer, whose `written` is a lane of the topics. It answers whether all was written, and keeps
-- the order within a lane.
pub record Producer : Type 1 where
  pub T : Type 0
  pub written : Lane → T → List Event
  pub produce : List Event → T → Bool × T
  pub produce-Attempts :
      (lane : Lane) (evs : List Event) (t : T)
      → (l : List Event) × Attempts (in_lane lane evs) l
        × (written lane (produce evs t).1 ≡ written lane t ++ l)
  pub produce-written :
      (lane : Lane) (evs : List Event) (t : T)
      → (produce evs t).0 ≡ true
      → (l : List Event) × Attempts (in_lane lane evs) l
        × (written lane (produce evs t).1 ≡ written lane t ++ (l ++ in_lane lane evs))
