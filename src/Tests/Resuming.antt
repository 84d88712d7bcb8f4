-- ===== src/Tests/Resuming.antt =====
-- The grace period at a concrete input.
use call_it.Prelude.{bytes, [], ◌∷◌, ◌≡◌}
use call_it.Services.Grace.{Pending, session_key, resume_session, fire}
use call_it.Services.Grace.Cancelled.{ends, Unscheduled, done, fired, resume_session-keeps}

-- One session whose end is scheduled on channel 0.
abbrev one_scheduled : Pending
one_scheduled = record {
  channels = (session_key (bytes "r") (bytes "ann"), 0) ∷ [];
  fresh = 1;
  ended = [];
}

-- The timer of channel 0 is due after the session was resumed.
late_timer :
    Unscheduled
      (session_key (bytes "r") (bytes "ann"))
      (resume_session (session_key (bytes "r") (bytes "ann")) one_scheduled)
      (fire
        (session_key (bytes "r") (bytes "ann"))
        0
        (resume_session (session_key (bytes "r") (bytes "ann")) one_scheduled))
late_timer = fired (session_key (bytes "r") (bytes "ann")) 0 done

resume_session-keeps_example :
    ends
      (session_key (bytes "r") (bytes "ann"))
      (fire
        (session_key (bytes "r") (bytes "ann"))
        0
        (resume_session (session_key (bytes "r") (bytes "ann")) one_scheduled)).ended
    ≡ ends (session_key (bytes "r") (bytes "ann")) one_scheduled.ended
resume_session-keeps_example =
    resume_session-keeps (session_key (bytes "r") (bytes "ann")) one_scheduled
      (fire (session_key (bytes "r") (bytes "ann")) 0
        (resume_session (session_key (bytes "r") (bytes "ann")) one_scheduled))
      late_timer
