-- ===== src/Motivation/Examples.antt =====
-- Tests of the gates of a move and of a greeting, and instances of the theorems.
use cobble_companion.Base.{◌≡◌, refl, true, false, none, some, ◌∷◌, [], List, ℕ, arith}
use cobble_companion.Motivation.Presence.{
  PresenceState, default_presence_thresholds, presence_state, Signals, record_activity,
}
use cobble_companion.Motivation.Arbitration.{
  gentle, eager, ArbitrationInput, decide_move, greet, decide_greeting,
}
use cobble_companion.Motivation.Restraint.{
  PresenceWrite, beats, acts, write_all, record_activity-restrains,
}

abbrev nobody : Signals
nobody companion = none

-- The user writes at 1000; another companion's user is active, and the tab goes on to beat.
abbrev writes : List PresenceWrite
writes = beats 3 true 5000 ∷ acts 4 6000 ∷ beats 3 false 9000 ∷ []

abbrev eager_input : PresenceState → ArbitrationInput
eager_input state = record {
  curiosity_level = 1000;
  curiosity_weight = 900;
  presence = state;
  dial = eager;
  energy_remaining = 5000;
  focus_length = 8;
}

abbrev state_at : ℕ → PresenceState
state_at now =
    presence_state (write_all writes (record_activity 3 1000 nobody) 3) now
      default_presence_thresholds

-- Once the window has run out, three reads are planned.
moves_later :
    decide_move (eager_input (state_at 40000)) ≡ some (record { limit = 3; pressure = 900000 })
unfolding decide_move presence_state write_all record_activity
moves_later = refl

-- A return after two hours is greeted by an eager dial and not by a gentle one, unless a loop is open.
gentle_stays_quiet :
    decide_greeting (record {
      first_meeting = false;
      gap_ms = 7200000;
      greeting_dial = gentle;
      has_open_loop = false;
    })
    ≡ none
unfolding decide_greeting
gentle_stays_quiet = refl

eager_greets :
    decide_greeting (record {
      first_meeting = false;
      gap_ms = 7200000;
      greeting_dial = eager;
      has_open_loop = false;
    })
    ≡ some greet
unfolding decide_greeting
eager_greets = refl

record_activity-restrains_example : decide_move (eager_input (state_at 31000)) ≡ none
record_activity-restrains_example =
    record_activity-restrains 1000 3 31000 default_presence_thresholds writes nobody
      (eager_input (state_at 31000)) (tt, (omega arith, (tt, tt))) (omega arith) refl
