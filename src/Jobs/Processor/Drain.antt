-- ===== src/Jobs/Processor/Drain.antt =====
-- A drain empties the queue of its companion.
use cobble_companion.Base.{
  ℕ, zero, suc, ◌+◌, ◌≤◌, ◌<◌, ◌≡◌, ◌⊎◌, refl, sym, subst, ap, ◌∙◌, inl, inr, Bool, true, false,
  ◌&&◌, Option, some, ◌==◌, codes, ◌++◌, Option-cases, put, arith, count_where,
  count_where-update_where-lt, ==_self, count_where-select_where, replicate, map_option,
}
use cobble_companion.Jobs.Tables.{
  JobType, Db, JobRow, ClaimRow, QueuedJob, ClaimedCompanion, is_pending, type_text,
}
use cobble_companion.Jobs.Queue.{
  is_due, has_id, fenced_update, claim_still_held, mark_done, mark_failed, renew_claim,
  release_claim, set_done, set_failed, next_due_job, to_queued,
}
use cobble_companion.Jobs.Queue.Selection.{next_due_job_lem, next_due_job-none}
use cobble_companion.Jobs.Processor.{
  HandlerOutcome, JobReport, wrote_done, wrote_failed, Handlers, finish, finish_failed, run_job,
  Round, leave, round, drain, report, after_renewal,
}
use cobble_companion.Jobs.Processor.Leaving.{outcome_cases}

-- Nobody interferes: no other node acts, no signal is raised, and the clock stands at `now`.
abbrev pub quiet : ℕ → Round
quiet now = record {
  quit = false;
  before = λ db. db;
  now = now;
  aborted = false;
  others = λ db. db;
  aborted_later = false;
  between = λ db. db;
  renew_now = now;
  select_throws = false;
  write_throws = false;
  renewal_throws = false;
}

-- Handlers that leave the tables alone.
abbrev pub pure_handlers : (JobType → Option (QueuedJob → HandlerOutcome)) → Handlers
pure_handlers answers t = map_option (λ answer job db. (answer job, db)) (answers t)

-- The jobs that are due for the companion.
abbrev pub due : ℕ → ℕ → Db → ℕ
due companion now db = count_where (λ r. r.companion_id == companion && is_due now r) db.jobs

abbrev pub Holds : ClaimedCompanion → ℕ → Db → Type 0
Holds claim now db =
    (row : ClaimRow) × (db.claims claim.companion_id ≡ some row)
    × (row.owner ≡ claim.owner)
    × (row.generation ≡ claim.generation)
    × (now ≤ row.claimed_until)

Holds-claim_still_held :
    (claim : ClaimedCompanion) (now : ℕ) (db : Db)
    → Holds claim now db
    → claim_still_held claim db ≡ true
unfolding claim_still_held
Holds-claim_still_held claim now db (row, e, o, g, live) = ground arith

-- The row of the job that was handed out, among the due ones.
fits_due :
    (c now : ℕ) (r : JobRow)
    → r.companion_id ≡ c
    → is_due now r ≡ true
    → (r.companion_id == c && is_due now r) ≡ true
fits_due c now r h k = ground arith

unfits_due :
    (c now : ℕ) (r : JobRow)
    → is_pending r.status ≡ false
    → (r.companion_id == c && is_due now r) ≡ false
unfolding is_due
unfits_due c now r h = ground arith

fenced_update-due :
    (claim : ClaimedCompanion) (f : JobRow → JobRow) (now : ℕ) (db : Db) (q : QueuedJob)
    → ((r : JobRow) → is_pending (f r).status ≡ false)
    → Holds claim now db
    → next_due_job claim.companion_id now db ≡ some q
    → due claim.companion_id now (fenced_update q.id claim f db).1 < due claim.companion_id now db
unfolding fenced_update to_queued has_id
fenced_update-due claim f now db q h holds next =
    let c = claim.companion_id in
    let (r, same, there, mine, is_now, first) = next_due_job_lem c now db q next in
    rw (Holds-claim_still_held claim now db holds) (
      count_where-update_where-lt (λ r. r.companion_id == c && is_due now r) (has_id q.id) f db.jobs
        r (λ x. unfits_due c now (f x) (h x)) there
        (subst (λ x. (r.id == x) ≡ true) (sym (ap (λ (x : QueuedJob). x.id) same)) (==_self r.id))
        (fits_due c now r mine is_now))

report-1 : (outcome : JobReport) (w : Bool × Db) → (report outcome w).1 ≡ w.1
unfolding report
report-1 outcome (true, db) = refl
report-1 outcome (false, db) = refl

-- Without interference a job ends in one fenced write, which settles it.
pub run_quiet :
    (answers : JobType → Option (QueuedJob → HandlerOutcome)) (job : QueuedJob)
    (claim : ClaimedCompanion) (db : Db)
    → (f : JobRow → JobRow) × ((r : JobRow) → is_pending (f r).status ≡ false)
      × ((run_job (pure_handlers answers) job claim false (λ d. d) db).1
          ≡ (fenced_update job.id claim f db).1)
unfolding run_job finish finish_failed mark_done mark_failed is_pending set_done set_failed
run_quiet answers job claim db = elim (Option-cases (answers job.type)) [
  | inl e ↦ (
    set_failed (codes "no handler for job type " ++ type_text job.type),
    λ r. refl,
    rw (e, run_job) (report-1 wrote_failed _),
  )
  | inr (answer, e) ↦ elim (outcome_cases (answer job)) [
    | inl a ↦ (set_done, λ r. refl, rw (e, run_job) (rw (a, finish) (report-1 wrote_done _)))
    | inr (error, a) ↦
        (set_failed error, λ r. refl, rw (e, run_job) (rw (a, finish) (report-1 wrote_failed _)))
  ]
]

pub renew_quiet :
    (claim : ClaimedCompanion) (lease_ms now : ℕ) (db : Db)
    → Holds claim now db
    → let after = renew_claim claim.companion_id claim.owner lease_ms now db in
      (after_renewal after.0 ≡ true) × Holds claim now after.1 × (after.1.jobs ≡ db.jobs)
unfolding renew_claim put after_renewal
renew_quiet claim lease_ms now db (row, e, o, g, live) = (
  ground arith,
  (
    record row { claimed_until = now + lease_ms },
    ground arith,
    ground arith,
    ground arith,
    omega arith,
  ),
  ground arith,
)

pub fenced_update-Holds :
    (claim : ClaimedCompanion) (now job : ℕ) (f : JobRow → JobRow) (db : Db)
    → Holds claim now db
    → Holds claim now (fenced_update job claim f db).1
unfolding fenced_update
fenced_update-Holds claim now job f db (row, e, o, g, live) = (row, ground arith, o, g, live)

-- A quiet round either finds nothing due, or settles one job and goes on.
pub round-quiet :
    (answers : JobType → Option (QueuedJob → HandlerOutcome)) (claim : ClaimedCompanion)
    (lease_ms now : ℕ) (db : Db)
    → Holds claim now db
    → let after = round (pure_handlers answers) claim lease_ms (quiet now) db in
      ((after ≡ (false, db)) × (due claim.companion_id now db ≡ 0))
      ⊎ ((after.0 ≡ true)
          × Holds claim now after.1
          × (due claim.companion_id now after.1 < due claim.companion_id now db))
unfolding round
round-quiet answers claim lease_ms now db holds =
    elim (Option-cases (next_due_job claim.companion_id now db)) [
      | inl e ↦ inl (
        rw (e, round),
        count_where-select_where _ db.jobs (next_due_job-none claim.companion_id now db e),
      )
      | inr (q, e) ↦
          let (f, h, ran) = run_quiet answers q claim db in
          let held_on =
            subst (Holds claim now) (sym ran) (fenced_update-Holds claim now q.id f db holds) in
          let (on, kept, same) = renew_quiet claim lease_ms now _ held_on in
          inr (
            rw (e, round) on,
            rw (e, round) kept,
            rw (e, round) (rw (same, ran) (fenced_update-due claim f now db q h holds e)),
          )
    ]

leave-due :
    (claim : ClaimedCompanion) (now : ℕ) (db : Db)
    → due claim.companion_id now (leave claim db) ≡ due claim.companion_id now db
unfolding leave release_claim
leave-due claim now db = ground arith

-- With nobody in between, no signal to stop or to abort, no statement that throws, and a claim that
-- holds, where the clock stands still and the handlers leave the tables alone, a drain ends after one
-- round for each due job and one more, whatever the handlers answer: no job of the companion is left
-- pending and due.
pub drain-empties :
    (answers : JobType → Option (QueuedJob → HandlerOutcome)) (claim : ClaimedCompanion)
    (lease_ms now n : ℕ) (db : Db)
    → Holds claim now db
    → due claim.companion_id now db < n
    → let after = drain (pure_handlers answers) claim lease_ms true (replicate n (quiet now)) db in
      (after.1 ≡ true) × (due claim.companion_id now after.0 ≡ 0)
unfolding drain
drain-empties answers claim lease_ms now zero db holds enough = absurd (omega arith)
drain-empties answers claim lease_ms now (suc n) db holds enough =
    elim (round-quiet answers claim lease_ms now db holds) [
      | inl (e, none_due) ↦ (
        rw (e, drain),
        rw (e, drain)
            (leave-due claim now (round (pure_handlers answers) claim lease_ms (quiet now) db).1
              ∙ ap (λ (x : Bool × Db). due claim.companion_id now x.1) e
              ∙ none_due),
      )
      | inr (on, kept, fewer) ↦
          let (ended, empty) =
            drain-empties answers claim lease_ms now n
              (round (pure_handlers answers) claim lease_ms (quiet now) db).1 kept (omega arith) in
          (rw (on, drain) ended, rw (on, drain) empty)
    ]
