-- ===== src/Relay/Reference.antt =====
-- A group and a producer in memory, as which the interfaces of the relay can be had.
use mathlib.Core.Path.{subst}
use call_it.Prelude.{
  List, [], ◌∷◌, ◌++◌, take, length, true, not, ◌≡◌, refl, ap, if◌then◌else◌, drop,
}
use call_it.Events.{Event}
use call_it.Relay.Streams.{
  GroupView, Group, Producer, in_lane, Attempts, none_written, some_written, messages_of, deliver,
  own, drop_ids, before, from, cursor,
}
use call_it.Relay.Invariant.{in_lane-append}

abbrev pub group_in_memory : Group
group_in_memory = record {
  T = GroupView;
  view = λ v. v;
  xadd = λ m v. record v { entries = v.entries ++ (m ∷ []); waiting = v.waiting ++ (m ∷ []) };
  xgroup_create = λ v. (
    not v.created,
    if v.created then v else record v { created = true; waiting = v.entries; pending = [] },
  );
  xreadgroup_new = λ c n v. (
    take n v.waiting,
    record v { waiting = drop n v.waiting; pending = v.pending ++ deliver c (take n v.waiting) },
  );
  xreadgroup_own = λ c n v. take n (own c v.pending);
  xack = λ ids v. record v { pending = drop_ids ids v.pending };
  xautoclaim = λ c start n v. (
    messages_of (take n (from start v.pending)),
    cursor (drop n (from start v.pending)),
    record v {
      pending =
          before start v.pending
          ++ (deliver c (messages_of (take n (from start v.pending)))
              ++ drop n (from start v.pending));
    },
  );
  view-xadd = λ m v. refl;
  xgroup_create-busy = λ v. refl;
  view-xgroup_create = λ v. refl;
  xreadgroup_new-take = λ c n v. refl;
  view-xreadgroup_new = λ c n v. refl;
  xreadgroup_own-take = λ c n v. refl;
  view-xack = λ ids v. refl;
  xautoclaim-take = λ c start n v. refl;
  xautoclaim-cursor = λ c start n v. refl;
  view-xautoclaim = λ c start n v. refl;
}

take_all : (l : List Event) → take (length l) l ≡ l
take_all [] = refl
take_all (e ∷ l) = ap (◌∷◌ e) (take_all l)

pub whole_batch : (l : List Event) → Attempts l l
whole_batch l = subst (Attempts l) (take_all l) (some_written (length l) none_written)

-- A producer that writes every batch once.
abbrev pub producer_in_memory : Producer
producer_in_memory = record {
  T = List Event;
  written = in_lane;
  produce = λ evs t. (true, t ++ evs);
  produce-Attempts =
      λ lane evs t. (in_lane lane evs, whole_batch (in_lane lane evs), in_lane-append lane t evs);
  produce-written = λ lane evs t h. ([], none_written, in_lane-append lane t evs);
}
