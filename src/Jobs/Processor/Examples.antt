-- ===== src/Jobs/Processor/Examples.antt =====
-- Tests of the processor on concrete tables, and instances of its theorems.
use cobble_companion.Base.{
  ℕ, ◌+◌, ◌<◌, ◌≡◌, ◌⊎◌, refl, true, false, Option, none, some, [], ◌∷◌, codes, count_where, arith,
  ◌==◌, if◌then◌else◌, replicate,
}
use cobble_companion.Jobs.Tables.{
  Db, JobRow, ClaimedCompanion, QueuedJob, consolidate, motivation, pending, JobType, is_pending,
  type_text, empty_payload, held,
}
use cobble_companion.Jobs.Queue.{is_due, owned_by, claim_still_held}
use cobble_companion.Jobs.Processor.{
  HandlerOutcome, threw, drain, run_job, left_pending, fenced, renewed, beat, started,
  IngestRequest,
}
use cobble_companion.Jobs.Processor.Leaving.{drain-frees, run_job-superseded, handled}
use cobble_companion.Jobs.Processor.Drain.{drain-empties, quiet, pure_handlers, due}
use cobble_companion.Jobs.Processor.Lease.{here, next, beats, granted, Watch, beat_before_expiry}

abbrev row : ℕ → JobType → ℕ → JobRow
row id type run_at = record {
  id = id;
  companion_id = 1;
  type = type;
  dedupe_key = type_text type;
  payload = empty_payload;
  run_at = run_at;
  status = pending;
  attempts = 0;
  last_error = none;
  created_at = run_at;
}

-- Companion 1 with two due jobs, claimed by node 7.
abbrev two_jobs : Db
two_jobs = record {
  jobs = row 0 consolidate 10 ∷ row 1 motivation 12 ∷ [];
  claims =
      λ c. if c == 1 then some (record { owner = 7; generation = 1; claimed_until = 50 }) else none;
  next_id = 2;
}

abbrev claim_7 : ClaimedCompanion
claim_7 = record { companion_id = 1; owner = 7; generation = 1 }

abbrev second_job : QueuedJob
second_job = record {
  id = 1;
  companion_id = 1;
  type = motivation;
  dedupe_key = type_text motivation;
  payload = empty_payload;
  attempts = 0;
}

-- A handler that throws for consolidation; nothing handles the rest.
abbrev answers : JobType → Option (QueuedJob → HandlerOutcome)
answers consolidate = some (λ _. threw (codes "no model"))
answers _ = none

two_jobs-due : due 1 20 two_jobs ≡ 2
unfolding count_where is_due is_pending
two_jobs-due = refl

drain-empties_example :
    ((drain (pure_handlers answers) claim_7 30 true (replicate 3 (quiet 20)) two_jobs).1 ≡ true)
    × (due 1 20 (drain (pure_handlers answers) claim_7 30 true (replicate 3 (quiet 20)) two_jobs).0
        ≡ 0)
drain-empties_example =
    drain-empties answers claim_7 30 20 3 two_jobs
      (record { owner = 7; generation = 1; claimed_until = 50 }, refl, refl, refl, omega arith)
      (omega (arith, two_jobs-due))

drain-frees_example :
    owned_by 7
      ((drain (pure_handlers answers) claim_7 30 true (replicate 3 (quiet 20)) two_jobs).0.claims 1)
    ≡ false
drain-frees_example =
    drain-frees (pure_handlers answers) claim_7 30 (replicate 3 (quiet 20)) two_jobs
      drain-empties_example.0

-- Node 8 takes the companion over while the handler runs.
abbrev take_over : Db → Db
take_over db = record db {
  claims = λ c. some (record { owner = 8; generation = 2; claimed_until = 90 });
}

run_job-superseded_example :
    (run_job (pure_handlers answers) second_job claim_7 false take_over two_jobs
      ≡ (left_pending, handled (pure_handlers answers) second_job two_jobs))
    ⊎ (run_job (pure_handlers answers) second_job claim_7 false take_over two_jobs
        ≡ (fenced, take_over (handled (pure_handlers answers) second_job two_jobs)))
unfolding claim_still_held
run_job-superseded_example =
    run_job-superseded (pure_handlers answers) second_job claim_7 false take_over two_jobs refl

-- A beat at 110 whose renewal is granted at 112 and read at 113.
abbrev seen : Watch
seen = record {
  heart = renewed held 113 (beat 30 10 110 (started 101));
  last_beat = 110;
  claimed_until = 142;
}

beat_before_expiry_example : seen.last_beat + 10 < seen.claimed_until + 2
unfolding renewed beat started
beat_before_expiry_example =
    beat_before_expiry 30 10 2 100 101 seen (omega arith) (omega arith)
      (next (next here (beats 110 (omega arith))) (granted 112 113 (omega arith) (omega arith)))
      refl

abbrev upload : IngestRequest
upload = record { companion_id = 1; source_id = codes "s"; job_id = codes "j"; upload_id = none }
