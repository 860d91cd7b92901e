-- ===== src/Jobs/Tables.antt =====
-- The tables `jobs` and `companion_claims` of db/src/schema.ts, the types of
-- packages/core/src/jobs/job-queue.ts, and the job types of packages/shared/src/contracts.ts.
use cobble_companion.Base.{ℕ, Bool, true, false, Option, none, some, List, ◌++◌, Text, codes}

pub data JobType : Type 0 where
  consolidate motivation reaction_learn ingest : JobType

pub data JobStatus : Type 0 where
  pending done failed : JobStatus

-- Every field of the payload is optional.
pub record JobPayload : Type 0 where
  pub message_id : Option Text
  pub emoji : Option Text
  pub source_id : Option Text
  pub job_id : Option Text
  pub upload_id : Option Text

-- The payload `{}`.
unfoldable pub empty_payload : JobPayload
empty_payload = record {
  message_id = none;
  emoji = none;
  source_id = none;
  job_id = none;
  upload_id = none;
}

pub record JobRow : Type 0 where
  pub id : ℕ
  pub companion_id : ℕ
  pub type : JobType
  pub dedupe_key : Text
  pub payload : JobPayload
  pub run_at : ℕ
  pub status : JobStatus
  pub attempts : ℕ
  pub last_error : Option Text
  pub created_at : ℕ

pub record ClaimRow : Type 0 where
  pub owner : ℕ
  pub generation : ℕ
  pub claimed_until : ℕ

-- The two tables, and the source of fresh job ids.
pub record Db : Type 0 where
  pub jobs : List JobRow
  pub claims : ℕ → Option ClaimRow
  pub next_id : ℕ

pub record QueuedJob : Type 0 where
  pub id : ℕ
  pub companion_id : ℕ
  pub type : JobType
  pub dedupe_key : Text
  pub payload : JobPayload
  pub attempts : ℕ

pub record EnqueueParams : Type 0 where
  pub companion_id : ℕ
  pub type : JobType
  pub payload : Option JobPayload
  pub run_at : Option ℕ
  pub dedupe_key : Option Text

pub record ClaimedCompanion : Type 0 where
  pub companion_id : ℕ
  pub owner : ℕ
  pub generation : ℕ

pub data LossReason : Type 0 where
  reclaimed : ℕ → LossReason
  lapsed released : LossReason

pub data RenewOutcome : Type 0 where
  held : RenewOutcome
  lost : LossReason → RenewOutcome

unfoldable pub is_pending : JobStatus → Bool
is_pending pending = true
is_pending done = false
is_pending failed = false

unfoldable pub same_type : JobType → JobType → Bool
same_type consolidate consolidate = true
same_type motivation motivation = true
same_type reaction_learn reaction_learn = true
same_type ingest ingest = true
same_type _ _ = false

-- The text of a job type.
unfoldable pub type_text : JobType → Text
type_text consolidate = codes "consolidate"
type_text motivation = codes "motivation"
type_text reaction_learn = codes "reaction_learn"
type_text ingest = codes "ingest"

unfoldable pub reaction_learn_dedupe_key : Text → Text → Text
reaction_learn_dedupe_key message_id emoji =
    codes "reaction:" ++ (message_id ++ (codes ":" ++ emoji))

abbrev pub or_default {ℓ} : {A : Type ℓ} → Option A → A → A
or_default none d = d
or_default (some a) d = a

-- What a request asks for, with its defaults. `app_now` is the caller's clock.
abbrev pub key_of : EnqueueParams → Text
key_of p = or_default p.dedupe_key (type_text p.type)

abbrev pub payload_of : EnqueueParams → JobPayload
payload_of p = or_default p.payload empty_payload

abbrev pub time_of : EnqueueParams → ℕ → ℕ
time_of p app_now = or_default p.run_at app_now
