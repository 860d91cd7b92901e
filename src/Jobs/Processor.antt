-- ===== src/Jobs/Processor.antt =====
-- packages/core/src/jobs/job-processor.ts: one job, the drain of a claimed companion, the heartbeat
-- that guards its lease, and the requests of the triggers.
-- What the model does not decide enters as data: what a handler answers, when the abort signal is
-- seen, and what the other nodes do to the tables in between.
pub mod Leaving
pub mod Drain
pub mod Lease
pub mod Examples
use cobble_companion.Base.{
  ℕ, suc, ◌+◌, ◌≡◌, Bool, true, false, ◌&&◌, ◌||◌, Option, none, some, List, [], ◌∷◌, ◌++◌, leb,
  ◌==◌, if◌then◌else◌, not, Text, codes,
}
use cobble_companion.Jobs.Tables.{
  JobType, ingest, reaction_learn, JobPayload, empty_payload, Db, QueuedJob, ClaimedCompanion,
  EnqueueParams, RenewOutcome, held, lost, type_text, reaction_learn_dedupe_key,
}
use cobble_companion.Jobs.Queue.{
  next_due_job, mark_done, mark_failed, renew_claim, release_claim, pending_count_by_type,
}

pub data HandlerOutcome : Type 0 where
  returned : HandlerOutcome
  threw : Text → HandlerOutcome

-- Whether the write of the outcome landed, was fenced out, or was not attempted.
pub data JobReport : Type 0 where
  wrote_done wrote_failed : JobReport
  fenced : JobReport
  left_pending : JobReport

-- A handler runs against the tables and may change them.
abbrev pub Handlers : Type 0
Handlers = JobType → Option (QueuedJob → Db → HandlerOutcome × Db)

report : JobReport → Bool × Db → JobReport × Db
report outcome (true, db) = (outcome, db)
report outcome (false, db) = (fenced, db)

finish_failed : Text → Bool → (Db → Db) → QueuedJob → ClaimedCompanion → Db → JobReport × Db
unfolding report
finish_failed error aborted others job claim db =
    if aborted
    then (left_pending, db)
    else report wrote_failed (mark_failed job.id error claim (others db))

-- After the handler: `aborted` is the signal at that moment, `others` what the other nodes do between
-- that look at the signal and the write.
finish : HandlerOutcome → Bool → (Db → Db) → QueuedJob → ClaimedCompanion → Db → JobReport × Db
unfolding report finish_failed
finish (threw error) aborted others job claim db = finish_failed error aborted others job claim db
finish returned aborted others job claim db =
    if aborted then (left_pending, db) else report wrote_done (mark_done job.id claim (others db))

unfoldable pub run_job :
    Handlers → QueuedJob → ClaimedCompanion → Bool → (Db → Db) → Db → JobReport × Db
unfolding finish finish_failed
run_job handlers job claim aborted others db = elim (handlers job.type) [
  | none ↦
      finish_failed (codes "no handler for job type " ++ type_text job.type) aborted others job
        claim db
  | some handler ↦
      let (outcome, db') = handler job db in finish outcome aborted others job claim db'
]

-- What the surroundings decide in one round of the drain.
pub record Round : Type 0 where
  -- Stopping, or aborted, when the loop's condition is read.
  pub quit : Bool
  pub before : Db → Db
  pub now : ℕ
  -- Aborted when the handler has settled.
  pub aborted : Bool
  pub others : Db → Db
  -- Aborted when the write has been made.
  pub aborted_later : Bool
  -- Before the renewal between two jobs, and its time.
  pub between : Db → Db
  pub renew_now : ℕ
  -- Which of the statements throws: the selection, the terminal write, or the renewal.
  pub select_throws : Bool
  pub write_throws : Bool
  pub renewal_throws : Bool

-- What the `finally` does.
unfoldable pub leave : ClaimedCompanion → Db → Db
leave claim db = release_claim claim.companion_id claim.owner db

unfoldable pub after_renewal : RenewOutcome → Bool
after_renewal held = true
after_renewal (lost reason) = false

-- One round of the loop: whether it goes on, and the tables. What throws ends the loop; a terminal
-- write that throws leaves the tables as an aborted job does.
unfoldable pub round : Handlers → ClaimedCompanion → ℕ → Round → Db → Bool × Db
unfolding after_renewal
round handlers claim lease_ms r db =
    if r.quit
    then (false, db)
    else if r.select_throws
    then (false, r.before db)
    else elim (next_due_job claim.companion_id r.now (r.before db)) [
      | none ↦ (false, r.before db)
      | some job ↦
          let (done_job, db') =
            run_job handlers job claim (r.aborted || r.write_throws) r.others (r.before db) in
          if r.aborted || (r.write_throws || r.aborted_later)
          then (false, db')
          else if r.renewal_throws
          then (false, r.between db')
          else let (renewal, db'') =
              renew_claim claim.companion_id claim.owner lease_ms r.renew_now (r.between db') in
            (after_renewal renewal, db'')
    ]

-- The rounds are the part of the drain that has been seen: with none left the drain still runs.
-- The second component says whether it has ended, after its `finally`; `released` says whether the
-- release there succeeds.
unfoldable pub drain : Handlers → ClaimedCompanion → ℕ → Bool → List Round → Db → Db × Bool
unfolding leave
drain handlers claim lease_ms released [] db = (db, false)
drain handlers claim lease_ms released (r ∷ rounds) db =
    let (goes_on, db') = round handlers claim lease_ms r db in
    elim goes_on [
      | true ↦ drain handlers claim lease_ms released rounds db'
      | false ↦ (if released then leave claim db' else db', true)
    ]

-- The heartbeat of a drain: its abort signal, the time of the last renewal it knows of, and whether
-- a renewal is on its way.
pub record Heartbeat : Type 0 where
  pub aborted : Bool
  pub last_renewed_at : ℕ
  pub renewing : Bool

unfoldable pub started : ℕ → Heartbeat
started now = record { aborted = false; last_renewed_at = now; renewing = false }

-- `elapsed >= leaseMs - heartbeatMs`, with both sides brought over so that nothing is subtracted.
unfoldable pub beat : ℕ → ℕ → ℕ → Heartbeat → Heartbeat
beat lease_ms heartbeat_ms now h =
    if h.aborted
    then h
    else if leb (lease_ms + h.last_renewed_at) (now + heartbeat_ms)
    then record h { aborted = true }
    else if h.renewing
    then h
    else record h { renewing = true }

-- The answer of the renewal that a beat sent.
unfoldable pub renewed : RenewOutcome → ℕ → Heartbeat → Heartbeat
renewed held now h = record h { last_renewed_at = now; renewing = false }
renewed (lost reason) now h = record h { aborted = true; renewing = false }

-- A renewal that throws.
unfoldable pub renewal_error : Heartbeat → Heartbeat
renewal_error h = record h { renewing = false }

-- The renewal between two jobs.
unfoldable pub renewed_between : ℕ → Heartbeat → Heartbeat
renewed_between now h = record h { last_renewed_at = now }

-- The requests of the triggers.
unfoldable pub companion_request : JobType → ℕ → EnqueueParams
companion_request type companion = record {
  companion_id = companion;
  type = type;
  payload = none;
  run_at = none;
  dedupe_key = none;
}

pub record IngestRequest : Type 0 where
  pub companion_id : ℕ
  pub source_id : Text
  pub job_id : Text
  pub upload_id : Option Text

unfoldable pub ingest_request : IngestRequest → EnqueueParams
ingest_request p = record {
  companion_id = p.companion_id;
  type = ingest;
  payload = some (record empty_payload {
    source_id = some p.source_id;
    job_id = some p.job_id;
    upload_id = p.upload_id;
  });
  run_at = none;
  dedupe_key = some (codes "ingest:" ++ p.source_id);
}

unfoldable pub is_full : ℕ → Db → Bool
is_full max_queue_depth db = leb max_queue_depth (pending_count_by_type ingest db)

unfoldable pub reaction_request : ℕ → Text → Text → EnqueueParams
reaction_request companion message_id emoji = record {
  companion_id = companion;
  type = reaction_learn;
  payload = some (record empty_payload { message_id = some message_id; emoji = some emoji });
  run_at = none;
  dedupe_key = some (reaction_learn_dedupe_key message_id emoji);
}
