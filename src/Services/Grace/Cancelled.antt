-- ===== src/Services/Grace/Cancelled.antt =====
-- A session that was resumed is not ended by a timer of before.
use call_it.Prelude.{
  ℕ, ◌+◌, Str, str_eq, str_eq_iff, List, [], ◌∷◌, ◌++◌, Bool, false, none, ◌≡◌, refl, ap, ◌∙◌,
  arith, if◌then◌else◌,
}
use call_it.Services.Grace.{Pending, channel_of, delete, schedule_end_session, resume_session, fire}

-- How often a session was ended.
abbrev pub ends : Str → List Str → ℕ
ends key [] = 0
ends key (k ∷ ks) = (if str_eq k key then 1 else 0) + ends key ks

ends-++ :
    (key k : Str) (l : List Str)
    → ends key (l ++ (k ∷ [])) ≡ ends key l + (if str_eq k key then 1 else 0)
ends-++ key k [] = ground arith
ends-++ key k (x ∷ l) = ground (arith, ends-++ key k l)

channel_of-delete :
    (key k : Str) (l : List (Str × ℕ))
    → channel_of key (delete k l) ≡ (if str_eq k key then none else channel_of key l)
unfolding channel_of delete
channel_of-delete key k [] = ground arith
channel_of-delete key k ((j, c) ∷ l) =
    ground (arith, channel_of-delete key k l, str_eq_iff k key, str_eq_iff j k, str_eq_iff j key)

-- A run of steps, in any order, in which nobody schedules the end of the session `key`.
pub data Unscheduled (key : Str) : Pending → Pending → Type 0 where
  done : {s : Pending} → Unscheduled key s s
  scheduled_other :
      {s t : Pending} (k : Str) (guest : Bool)
      → str_eq k key ≡ false
      → Unscheduled key (schedule_end_session k guest s) t
      → Unscheduled key s t
  resumed : {s t : Pending} (k : Str) → Unscheduled key (resume_session k s) t → Unscheduled key s t
  fired :
      {s t : Pending} (k : Str) (channel : ℕ)
      → Unscheduled key (fire k channel s) t
      → Unscheduled key s t

schedule-none :
    (key k : Str) (guest : Bool) (s : Pending)
    → str_eq k key ≡ false
    → channel_of key s.channels ≡ none
    → (channel_of key (schedule_end_session k guest s).channels ≡ none)
      × (ends key (schedule_end_session k guest s).ended ≡ ends key s.ended)
unfolding schedule_end_session channel_of
schedule-none key k guest s n h = ground (arith, channel_of-delete key k s.channels)

resume-none :
    (key k : Str) (s : Pending)
    → channel_of key s.channels ≡ none
    → (channel_of key (resume_session k s).channels ≡ none)
      × (ends key (resume_session k s).ended ≡ ends key s.ended)
unfolding resume_session
resume-none key k s h = ground (arith, channel_of-delete key k s.channels)

fire-none :
    (key k : Str) (channel : ℕ) (s : Pending)
    → channel_of key s.channels ≡ none
    → (channel_of key (fire k channel s).channels ≡ none)
      × (ends key (fire k channel s).ended ≡ ends key s.ended)
unfolding fire
fire-none key k channel s h =
    ground (arith, channel_of-delete key k s.channels, ends-++ key k s.ended, str_eq_iff k key)

Unscheduled-ends :
    (key : Str) {s t : Pending}
    → Unscheduled key s t
    → channel_of key s.channels ≡ none
    → ends key t.ended ≡ ends key s.ended
Unscheduled-ends key done h = refl
Unscheduled-ends key {s} (scheduled_other k guest n run) h =
    let (none_left, same) = schedule-none key k guest s n h in
    Unscheduled-ends key run none_left ∙ same
Unscheduled-ends key {s} (resumed k run) h =
    let (none_left, same) = resume-none key k s h in Unscheduled-ends key run none_left ∙ same
Unscheduled-ends key {s} (fired k channel run) h =
    let (none_left, same) = fire-none key k channel s h in Unscheduled-ends key run none_left ∙ same

resume-clears :
    (key : Str) (s : Pending)
    → (channel_of key (resume_session key s).channels ≡ none)
      × ((resume_session key s).ended ≡ s.ended)
unfolding resume_session
resume-clears key s = ground (arith, channel_of-delete key key s.channels, str_eq_iff key key)

-- After a session was resumed, no timer takes its entry and goes on to end it, whatever timers are still
-- running, for this session or for others, and in whatever order they fire and other sessions are
-- scheduled and resumed, as long as its end is not scheduled anew.
pub resume_session-keeps :
    (key : Str) (s t : Pending)
    → Unscheduled key (resume_session key s) t
    → ends key t.ended ≡ ends key s.ended
resume_session-keeps key s t run =
    let (none_left, same) = resume-clears key s in
    Unscheduled-ends key run none_left ∙ ap (ends key) same
