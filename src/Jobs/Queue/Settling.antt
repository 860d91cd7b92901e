-- ===== src/Jobs/Queue/Settling.antt =====
-- What a terminal write that lands does to the queue.
use cobble_companion.Base.{
  ℕ, ◌≡◌, ◌≢◌, ◌∙◌, sym, ap, refl, inl, inr, true, false, ◌&&◌, some, List, [], ◌∷◌, if◌then◌else◌,
  Bool-cases, All, All-In, update_where, arith, Text,
}
use cobble_companion.Jobs.Tables.{Db, JobRow, ClaimedCompanion, QueuedJob, is_pending}
use cobble_companion.Jobs.Queue.{
  is_due, has_id, fenced_update, claim_still_held, mark_done, mark_failed, set_done, set_failed,
  next_due_job, to_queued,
}
use cobble_companion.Jobs.Queue.Selection.{next_due_job_lem}

-- A row that is not both the job and still pending.
abbrev Settled : ℕ → JobRow → Type 0
Settled job r = (has_id job r && is_pending r.status) ≡ false

update_where-Settled :
    (job : ℕ) (f : JobRow → JobRow)
    → ((r : JobRow) → is_pending (f r).status ≡ false)
    → (rows : List JobRow) → All (Settled job) (update_where (has_id job) f rows)
unfolding update_where
update_where-Settled job f h [] = tt
update_where-Settled job f h (r ∷ rows) = (settled_row r, update_where-Settled job f h rows)
  where
    settled_row : (r : JobRow) → Settled job (if has_id job r then f r else r)
    settled_row r = elim (Bool-cases (has_id job r)) [
      | inl e ↦ rw e (ground (arith, h r))
      | inr e ↦ rw e (ground arith)
    ]

Settled-not_due : (job now : ℕ) (r : JobRow) → Settled job r → is_due now r ≡ true → r.id ≢ job
unfolding has_id is_due
Settled-not_due job now r h due e = ground arith

fenced_update-settles :
    (job : ℕ) (claim : ClaimedCompanion) (f : JobRow → JobRow) (db : Db) (companion now : ℕ)
    (q : QueuedJob)
    → ((r : JobRow) → is_pending (f r).status ≡ false)
    → (fenced_update job claim f db).0 ≡ true
    → next_due_job companion now (fenced_update job claim f db).1 ≡ some q
    → q.id ≢ job
unfolding fenced_update to_queued
fenced_update-settles job claim f db companion now q h landed next =
    elim (Bool-cases (claim_still_held claim db)) [
      | inr e ↦ cc (rw e at landed)
      | inl e ↦
          let (r, same, there, mine, due, first) =
            next_due_job_lem companion now _ q (rw e at next) in
          let settled = All-In (Settled job) _ (update_where-Settled job f h db.jobs) r there in
          λ i. Settled-not_due job now r settled due (sym (ap (λ (x : QueuedJob). x.id) same) ∙ i)
    ]

-- In the tables that the terminal write of a job leaves, where it lands, that job is not the one handed
-- out, to any drain at any time.
mark_done-settles :
    (job : ℕ) (claim : ClaimedCompanion) (db : Db) (companion now : ℕ) (q : QueuedJob)
    → (mark_done job claim db).0 ≡ true
    → next_due_job companion now (mark_done job claim db).1 ≡ some q
    → q.id ≢ job
unfolding mark_done is_pending set_done
mark_done-settles job claim db companion now q landed next =
    fenced_update-settles job claim _ db companion now q (λ r. refl) landed next

pub mark_failed-settles :
    (job : ℕ) (error : Text) (claim : ClaimedCompanion) (db : Db) (companion now : ℕ)
    (q : QueuedJob)
    → (mark_failed job error claim db).0 ≡ true
    → next_due_job companion now (mark_failed job error claim db).1 ≡ some q
    → q.id ≢ job
unfolding mark_failed is_pending set_failed
mark_failed-settles job error claim db companion now q landed next =
    fenced_update-settles job claim _ db companion now q (λ r. refl) landed next
