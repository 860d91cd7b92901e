-- ===== src/Jobs/Queue.antt =====
-- packages/core/src/jobs/job-queue.ts over the tables `jobs` and `companion_claims` of
-- db/src/schema.ts. `now` is the database's clock at the statement.
pub mod Trace
pub mod Coalescing
pub mod Fencing
pub mod Selection
pub mod Groups
pub mod Claiming
pub mod Settling
use cobble_companion.Base.{
  ℕ, suc, ◌+◌, Bool, true, false, ◌&&◌, Option, none, some, List, [], ◌∷◌, ◌++◌, map, min, ltb, leb,
  ◌==◌, if◌then◌else◌, Text, codes, text_eq, take, select_where, update_where, exists_where,
  count_where, put,
}
use cobble_companion.Jobs.Tables.{
  JobType, JobStatus, JobPayload, JobRow, ClaimRow, Db, QueuedJob, EnqueueParams, ClaimedCompanion,
  LossReason, RenewOutcome, empty_payload, is_pending, same_type, type_text,
  reaction_learn_dedupe_key, or_default, key_of, payload_of, time_of, consolidate, motivation,
  reaction_learn, ingest, pending, done, failed, reclaimed, lapsed, released, held, lost,
}

-- The partial unique index: a pending row of this companion under this key.
unfoldable pub pending_under : ℕ → Text → JobRow → Bool
unfolding is_pending
pending_under c k r = is_pending r.status && (r.companion_id == c && text_eq r.dedupe_key k)

fresh_row : EnqueueParams → ℕ → ℕ → ℕ → JobRow
fresh_row p app_now now id = record {
  id = id;
  companion_id = p.companion_id;
  type = p.type;
  dedupe_key = key_of p;
  payload = payload_of p;
  run_at = time_of p app_now;
  status = pending;
  attempts = 0;
  last_error = none;
  created_at = now;
}

-- ON CONFLICT DO UPDATE: the earlier time, and the new payload.
collapse : EnqueueParams → ℕ → JobRow → JobRow
collapse p app_now r = record r {
  run_at = min r.run_at (time_of p app_now);
  payload = payload_of p;
}

-- INSERT … ON CONFLICT on the partial unique index.
unfoldable pub enqueue : EnqueueParams → ℕ → ℕ → Db → Db
unfolding fresh_row collapse
enqueue p app_now now db =
    if exists_where (pending_under p.companion_id (key_of p)) db.jobs
    then record db {
      jobs = update_where (pending_under p.companion_id (key_of p)) (collapse p app_now) db.jobs;
    }
    else record db {
      jobs = db.jobs ++ (fresh_row p app_now now db.next_id ∷ []);
      next_id = suc db.next_id;
    }

-- No claim, or one whose lease has run out.
unfoldable pub claimable : ℕ → Option ClaimRow → Bool
claimable now none = true
claimable now (some c) = ltb c.claimed_until now

unfoldable pub is_due : ℕ → JobRow → Bool
is_due now r = is_pending r.status && leb r.run_at now

-- A group of the candidate query: a companion with its oldest due `run_at`.
abbrev pub Group : Type 0
Group = ℕ × ℕ

-- GROUP BY companion_id with min(run_at).
unfoldable pub add_to_groups : ℕ → ℕ → List Group → List Group
add_to_groups c t [] = (c, t) ∷ []
add_to_groups c t ((d, u) ∷ gs) =
    let rest = add_to_groups c t gs in if d == c then (d, min u t) ∷ gs else (d, u) ∷ rest

unfoldable pub groups : List JobRow → List Group
groups [] = []
groups (r ∷ rs) = add_to_groups r.companion_id r.run_at (groups rs)

-- ORDER BY min(run_at).
unfoldable pub insert_by_time : Group → List Group → List Group
insert_by_time g [] = g ∷ []
insert_by_time g (h ∷ hs) =
    let rest = insert_by_time g hs in if leb g.1 h.1 then g ∷ (h ∷ hs) else h ∷ rest

unfoldable pub sort_by_time : List Group → List Group
sort_by_time [] = []
sort_by_time (g ∷ gs) = insert_by_time g (sort_by_time gs)

abbrev pub claim_candidate_batch : ℕ
claim_candidate_batch = 8

unfoldable pub candidates : ℕ → Db → List ℕ
candidates now db =
    map (λ g. g.0)
      (take claim_candidate_batch (
        sort_by_time (
          groups (
            select_where (λ r. is_due now r && claimable now (db.claims r.companion_id)) db.jobs))))

-- One INSERT … ON CONFLICT DO UPDATE … WHERE claimed_until < now().
unfoldable pub claim_row : ℕ → ℕ → ℕ → Option ClaimRow → Option ClaimRow
claim_row owner lease_ms now none =
    some (record { owner = owner; generation = 1; claimed_until = now + lease_ms })
claim_row owner lease_ms now (some c) =
    if ltb c.claimed_until now
    then some
        (record { owner = owner; generation = c.generation + 1; claimed_until = now + lease_ms })
    else none

unfoldable pub record_claim : ℕ → Option ClaimRow → Db → Option ℕ × Db
record_claim companion none db = (none, db)
record_claim companion (some c) db =
    (some c.generation, record db { claims = put companion (some c) db.claims })

unfoldable pub try_claim : ℕ → ℕ → ℕ → ℕ → Db → Option ℕ × Db
unfolding claim_row record_claim
try_claim companion owner lease_ms now db =
    record_claim companion (claim_row owner lease_ms now (db.claims companion)) db

-- The loop over the candidates. Other nodes may act before each attempt: `others` gives what they
-- do to the tables, and `clock` the time of the attempt.

unfoldable pub claim_first :
    List ℕ → ℕ → ℕ → (ℕ → ℕ) → (ℕ → Db → Db) → Db → Option ClaimedCompanion × Db
claim_first [] owner lease_ms clock others db = (none, db)
claim_first (c ∷ cs) owner lease_ms clock others db =
    let (won, db') = try_claim c owner lease_ms (clock c) (others c db) in
    elim won [
      | some generation ↦
          (some (record { companion_id = c; owner = owner; generation = generation }), db')
      | none ↦ claim_first cs owner lease_ms clock others db'
    ]

unfoldable pub claim_next_companion :
    ℕ → ℕ → ℕ → (ℕ → ℕ) → (ℕ → Db → Db) → Db → Option ClaimedCompanion × Db
unfolding claim_first
claim_next_companion owner lease_ms now clock others db =
    claim_first (candidates now db) owner lease_ms clock others db

-- ORDER BY run_at, created_at.
unfoldable pub runs_before : JobRow → JobRow → Bool
runs_before a b =
    if ltb a.run_at b.run_at
    then true
    else if ltb b.run_at a.run_at
    then false
    else leb a.created_at b.created_at

unfoldable pub first_to_run : List JobRow → Option JobRow
first_to_run [] = none
first_to_run (r ∷ rs) = elim (first_to_run rs) [
  | none ↦ some r
  | some s ↦ some (if runs_before r s then r else s)
]

unfoldable pub to_queued : JobRow → QueuedJob
to_queued r = record {
  id = r.id;
  companion_id = r.companion_id;
  type = r.type;
  dedupe_key = r.dedupe_key;
  payload = r.payload;
  attempts = r.attempts;
}

map_queued : Option JobRow → Option QueuedJob
unfolding to_queued
map_queued none = none
map_queued (some r) = some (to_queued r)

unfoldable pub next_due_job : ℕ → ℕ → Db → Option QueuedJob
unfolding map_queued
next_due_job companion now db =
    map_queued
      (first_to_run (select_where (λ r. r.companion_id == companion && is_due now r) db.jobs))

-- The fencing predicate.
unfoldable pub claim_still_held : ClaimedCompanion → Db → Bool
claim_still_held claim db = elim (db.claims claim.companion_id) [
  | none ↦ false
  | some c ↦ c.owner == claim.owner && c.generation == claim.generation
]

unfoldable pub has_id : ℕ → JobRow → Bool
has_id job r = r.id == job

unfoldable pub fenced_update : ℕ → ClaimedCompanion → (JobRow → JobRow) → Db → Bool × Db
unfolding has_id
fenced_update job claim f db =
    if claim_still_held claim db
    then (
      exists_where (has_id job) db.jobs,
      record db { jobs = update_where (has_id job) f db.jobs },
    )
    else (false, db)

abbrev pub max_error_chars : ℕ
max_error_chars = 2000

unfoldable pub set_done : JobRow → JobRow
set_done r = record r { status = done }

unfoldable pub set_failed : Text → JobRow → JobRow
set_failed error r = record r {
  status = failed;
  last_error = some (take max_error_chars error);
  attempts = r.attempts + 1;
}

unfoldable pub mark_done : ℕ → ClaimedCompanion → Db → Bool × Db
unfolding fenced_update
mark_done job claim db = fenced_update job claim set_done db

unfoldable pub mark_failed : ℕ → Text → ClaimedCompanion → Db → Bool × Db
unfolding fenced_update
mark_failed job error claim db = fenced_update job claim (set_failed error) db

-- Why a renewal matched no row. The diagnosis is a second statement: the model reads it off the
-- tables of the first, so no other node acts in between.
diagnose : ℕ → Option ClaimRow → LossReason
diagnose owner none = released
diagnose owner (some c) = if c.owner == owner then lapsed else reclaimed c.owner

renewable : ℕ → ℕ → Option ClaimRow → Bool
renewable owner now none = false
renewable owner now (some c) = c.owner == owner && leb now c.claimed_until

extend : ℕ → Option ClaimRow → Option ClaimRow
extend until none = none
extend until (some c) = some (record c { claimed_until = until })

unfoldable pub renew_claim : ℕ → ℕ → ℕ → ℕ → Db → RenewOutcome × Db
unfolding diagnose renewable extend
renew_claim companion owner lease_ms now db =
    if renewable owner now (db.claims companion)
    then (
      held,
      record db {
        claims = put companion (extend (now + lease_ms) (db.claims companion)) db.claims;
      },
    )
    else (lost (diagnose owner (db.claims companion)), db)

unfoldable pub owned_by : ℕ → Option ClaimRow → Bool
owned_by owner none = false
owned_by owner (some c) = c.owner == owner

unfoldable pub release_claim : ℕ → ℕ → Db → Db
unfolding owned_by
release_claim companion owner db =
    if owned_by owner (db.claims companion)
    then record db { claims = put companion none db.claims }
    else db

unfoldable pub pending_count_by_type : JobType → Db → ℕ
pending_count_by_type t db = count_where (λ r. is_pending r.status && same_type r.type t) db.jobs
