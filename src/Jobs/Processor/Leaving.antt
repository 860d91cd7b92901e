-- ===== src/Jobs/Processor/Leaving.antt =====
-- What a drain leaves when it ends or is superseded.
use cobble_companion.Base.{
  ℕ, ◌≡◌, ◌⊎◌, refl, inl, inr, Bool, true, false, none, some, List, [], ◌∷◌, Text, Bool-cases,
  Option-cases, put, arith,
}
use cobble_companion.Jobs.Tables.{Db, QueuedJob, ClaimedCompanion}
use cobble_companion.Jobs.Queue.{owned_by, claim_still_held, mark_done, mark_failed, release_claim}
use cobble_companion.Jobs.Processor.{
  HandlerOutcome, returned, threw, fenced, left_pending, Handlers, finish, finish_failed, run_job,
  Round, leave, round, drain,
}

-- The tables after the handler of a job, if there is one.
abbrev pub handled : Handlers → QueuedJob → Db → Db
handled handlers job db = elim (handlers job.type) [ none ↦ db | some handler ↦ (handler job db).1 ]

finish_failed-superseded :
    (error : Text) (aborted : Bool) (others : Db → Db) (job : QueuedJob) (claim : ClaimedCompanion)
    (db : Db)
    → claim_still_held claim (others db) ≡ false
    → (finish_failed error aborted others job claim db ≡ (left_pending, db))
      ⊎ (finish_failed error aborted others job claim db ≡ (fenced, others db))
unfolding finish_failed mark_failed
finish_failed-superseded error aborted others job claim db h = ground arith

finish-superseded :
    (outcome : HandlerOutcome) (aborted : Bool) (others : Db → Db) (job : QueuedJob)
    (claim : ClaimedCompanion) (db : Db)
    → claim_still_held claim (others db) ≡ false
    → (finish outcome aborted others job claim db ≡ (left_pending, db))
      ⊎ (finish outcome aborted others job claim db ≡ (fenced, others db))
unfolding finish mark_done
finish-superseded (threw error) aborted others job claim db h =
    finish_failed-superseded error aborted others job claim db h
finish-superseded returned aborted others job claim db h = ground arith

-- A job whose claim has been taken over by the time of its terminal write records no outcome, whatever
-- its handler answered and whether or not the drain had seen the loss: the tables are those that the
-- handler and the other nodes left.
pub run_job-superseded :
    (handlers : Handlers) (job : QueuedJob) (claim : ClaimedCompanion) (aborted : Bool)
    (others : Db → Db) (db : Db)
    → claim_still_held claim (others (handled handlers job db)) ≡ false
    → (run_job handlers job claim aborted others db ≡ (left_pending, handled handlers job db))
      ⊎ (run_job handlers job claim aborted others db ≡ (fenced, others (handled handlers job db)))
unfolding run_job
run_job-superseded handlers job claim aborted others db h =
    elim (Option-cases (handlers job.type)) [
      | inl e ↦
          rw (e, run_job, handled)
            (finish_failed-superseded _ aborted others job claim db (rw (e, handled) at h))
      | inr (handler, e) ↦
          rw (e, run_job, handled)
            (finish-superseded _ aborted others job claim _ (rw (e, handled) at h))
    ]

pub outcome_cases : (o : HandlerOutcome) → (o ≡ returned) ⊎ ((error : Text) × (o ≡ threw error))
outcome_cases returned = inl refl
outcome_cases (threw error) = inr (error, refl)

leave-frees :
    (claim : ClaimedCompanion) (db : Db)
    → owned_by claim.owner ((leave claim db).claims claim.companion_id) ≡ false
unfolding leave release_claim put
leave-frees claim db = ground arith

-- A drain that ends, on whichever branch, by a statement that throws too, and whose release succeeds does
-- not keep its claim: the companion is unclaimed or belongs to another owner.
pub drain-frees :
    (handlers : Handlers) (claim : ClaimedCompanion) (lease_ms : ℕ) (rounds : List Round) (db : Db)
    → (drain handlers claim lease_ms true rounds db).1 ≡ true
    → owned_by claim.owner
        ((drain handlers claim lease_ms true rounds db).0.claims claim.companion_id)
      ≡ false
unfolding drain
drain-frees handlers claim lease_ms [] db ended = cc
drain-frees handlers claim lease_ms (r ∷ rounds) db ended =
    elim (Bool-cases (round handlers claim lease_ms r db).0) [
      | inl e ↦
          rw (e, drain)
            (drain-frees handlers claim lease_ms rounds (round handlers claim lease_ms r db).1
              (rw (e, drain) at ended))
      | inr e ↦ rw (e, drain) (leave-frees claim (round handlers claim lease_ms r db).1)
    ]
