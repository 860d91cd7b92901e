-- ===== src/Jobs/Pool/Examples.antt =====
-- Instances of the theorems on the pool, and a test of its events.
use cobble_companion.Base.{
  ◌≤◌, refl, ℕ, List, ◌≡◌, true, Option, none, some, [], ◌∷◌, codes, count_where, replicate, arith,
}
use cobble_companion.Jobs.Tables.{
  JobType, Db, JobRow, QueuedJob, consolidate, motivation, pending, is_pending, empty_payload,
}
use cobble_companion.Jobs.Queue.{is_due, claimable}
use cobble_companion.Jobs.Processor.{HandlerOutcome, returned, threw}
use cobble_companion.Jobs.Processor.Drain.{pure_handlers}
use cobble_companion.Jobs.Pool.{
  drain_loop, new_pool, start, nudge, top_up, begin_enqueue, settle_enqueue, end_loop, begin_close,
}
use cobble_companion.Jobs.Pool.Running.{
  Event, starts, polls, enqueues, loop_ends, closes, enqueue_settles, handle, handle_all,
  handle_all-bounded,
}
use cobble_companion.Jobs.Pool.Draining.{open_work, quiet_visit, drain_loop-finishes}

abbrev waiting : ℕ → ℕ → JobType → ℕ → JobRow
waiting id companion type run_at = record {
  id = id;
  companion_id = companion;
  type = type;
  dedupe_key = codes "k";
  payload = empty_payload;
  run_at = run_at;
  status = pending;
  attempts = 0;
  last_error = none;
  created_at = run_at;
}

abbrev two_companions : Db
two_companions = record {
  jobs =
      waiting 0 1 consolidate 10
      ∷ waiting 1 2 motivation 12
      ∷ waiting 2 1 motivation 14
      ∷ waiting 3 2 consolidate 99
      ∷ [];
  claims = λ c. none;
  next_id = 4;
}

-- One handler fails.
abbrev mixed_answers : JobType → Option (QueuedJob → HandlerOutcome)
mixed_answers consolidate = some (λ job. threw (codes "down"))
mixed_answers motivation = some (λ job. returned)
mixed_answers _ = none

drain_loop-finishes_example :
    let (db', ended) =
      drain_loop
        (pure_handlers mixed_answers)
        9
        30
        (replicate 4 (quiet_visit 20 4))
        two_companions in
    (ended ≡ true) × (open_work 20 db' ≡ 0)
unfolding count_where is_due claimable is_pending
drain_loop-finishes_example =
    drain_loop-finishes mixed_answers 9 30 20 4 4 two_companions (omega arith) (omega arith)

-- A pool of two loops that is nudged, loses a loop, and is closed while an enqueue is on its way.
abbrev events : List Event
events = starts ∷ enqueues ∷ loop_ends ∷ polls ∷ closes ∷ enqueue_settles true ∷ loop_ends ∷ []

one_left : (handle_all 2 events new_pool).running ≡ 1
unfolding handle_all handle start nudge top_up begin_enqueue settle_enqueue end_loop begin_close
    new_pool
one_left = refl

handle_all-bounded_example :
    ((handle_all 2 events new_pool).running ≤ 2)
    × (new_pool.stopping ≡ true → (handle_all 2 events new_pool).running ≤ new_pool.running)
unfolding new_pool
handle_all-bounded_example = handle_all-bounded 2 events new_pool (omega arith)
