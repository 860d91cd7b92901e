-- ===== src/Jobs/Pool/Frame.antt =====
-- What a drain of one companion leaves as it was.
use cobble_companion.Base.{
  ℕ, zero, suc, ◌≤◌, ◌≡◌, refl, sym, subst, ap, ◌∙◌, inl, inr, Bool, true, false, Option, none,
  some, List, [], ◌∷◌, ◌==◌, Bool-cases, Option-cases, put, some_inj, arith, count_where,
  count_where-update_where-le, replicate,
}
use native.Mathlib.Nat.{le_trans, le_refl}
use cobble_companion.Jobs.Tables.{
  JobType, Db, JobRow, ClaimRow, QueuedJob, ClaimedCompanion, is_pending,
}
use cobble_companion.Jobs.Queue.{
  claim_row, record_claim, try_claim, claim_first, fenced_update, has_id, renew_claim,
  release_claim, next_due_job,
}
use cobble_companion.Jobs.Processor.{HandlerOutcome, round, drain, leave}
use cobble_companion.Jobs.Processor.Drain.{quiet, pure_handlers, run_quiet}

-- What happens to one companion touches no other claim, and gives no row back its pending state.
pub record Frame (c : ℕ) (db db' : Db) : Type 0 where
  pub others : (d : ℕ) → (d == c) ≡ false → db'.claims d ≡ db.claims d
  pub fewer :
      (q : JobRow → Bool)
      → ((r : JobRow) → q r ≡ true → is_pending r.status ≡ true)
      → count_where q db'.jobs ≤ count_where q db.jobs

pub Frame-refl : (c : ℕ) (db : Db) → Frame c db db
Frame-refl c db = record { others = λ d h. refl; fewer = λ q h. le_refl _ }

pub Frame-trans : (c : ℕ) (a b d : Db) → Frame c a b → Frame c b d → Frame c a d
Frame-trans c a b d f g = record {
  others = λ e h. g.others e h ∙ f.others e h;
  fewer = λ q h. le_trans (g.fewer q h) (f.fewer q h);
}

-- A statement that writes the companion's claim only.
put-Frame :
    (c : ℕ) (row : Option ClaimRow) (db : Db)
    → Frame c db (record db { claims = put c row db.claims })
unfolding put
put-Frame c row db = record { others = λ d h. ground arith; fewer = λ q h. le_refl _ }

pub fenced_update-Frame :
    (job : ℕ) (claim : ClaimedCompanion) (f : JobRow → JobRow) (db : Db)
    → ((r : JobRow) → is_pending (f r).status ≡ false)
    → Frame claim.companion_id db (fenced_update job claim f db).1
unfolding fenced_update
fenced_update-Frame job claim f db h = record {
  others = λ d e. ground arith;
  fewer = λ q k. ground (
    arith,
    count_where-update_where-le q (has_id job) f (λ x a b. absurd (clash (f x) (k (f x) b) (h x)))
        db.jobs,
  );
}
  where
    clash : (r : JobRow) → is_pending r.status ≡ true → is_pending r.status ≡ false → ⊥
    clash r a b = cc

pub renew-Frame :
    (c owner lease_ms now : ℕ) (db : Db) → Frame c db (renew_claim c owner lease_ms now db).1
unfolding renew_claim put
renew-Frame c owner lease_ms now db = record {
  others = λ d h. ground arith;
  fewer = λ q h. ground arith;
}

leave-Frame : (claim : ClaimedCompanion) (db : Db) → Frame claim.companion_id db (leave claim db)
unfolding leave release_claim put
leave-Frame claim db = record { others = λ d h. ground arith; fewer = λ q h. ground arith }

pub try_claim-Frame :
    (c owner lease_ms now : ℕ) (db : Db) → Frame c db (try_claim c owner lease_ms now db).1
unfolding try_claim claim_row record_claim put
try_claim-Frame c owner lease_ms now db = record {
  others = λ d h. ground arith;
  fewer = λ q h. ground arith;
}

pub try_claim_refused :
    (c owner lease_ms now : ℕ) (db : Db)
    → (try_claim c owner lease_ms now db).0 ≡ none
    → (try_claim c owner lease_ms now db).1 ≡ db
unfolding try_claim claim_row record_claim
try_claim_refused c owner lease_ms now db h = ground arith

pub claim_first-Frame :
    (cs : List ℕ) (owner lease_ms now : ℕ) (db : Db) (claim : ClaimedCompanion)
    → (claim_first cs owner lease_ms (λ _. now) (λ _ d. d) db).0 ≡ some claim
    → Frame claim.companion_id db (claim_first cs owner lease_ms (λ _. now) (λ _ d. d) db).1
unfolding claim_first
claim_first-Frame [] owner lease_ms now db claim h = cc
claim_first-Frame (c ∷ cs) owner lease_ms now db claim h =
    elim (Option-cases (try_claim c owner lease_ms now db).0) [
      | inr (g, e) ↦
          rw (e, claim_first)
            (subst (λ d. Frame d db (try_claim c owner lease_ms now db).1)
              (ap (λ (x : ClaimedCompanion). x.companion_id) (some_inj (rw (e, claim_first) at h)))
              (try_claim-Frame c owner lease_ms now db))
      | inl e ↦
          rw (e, claim_first)
            (subst
              (λ d.
                (claim_first cs owner lease_ms (λ _. now) (λ _ d. d) d).0 ≡ some claim
                → Frame claim.companion_id db
                    (claim_first cs owner lease_ms (λ _. now) (λ _ d. d) d).1)
              (sym (try_claim_refused c owner lease_ms now db e))
              (claim_first-Frame cs owner lease_ms now db claim) (rw (e, claim_first) at h))
    ]

round-Frame :
    (answers : JobType → Option (QueuedJob → HandlerOutcome)) (claim : ClaimedCompanion)
    (lease_ms now : ℕ) (db : Db)
    → Frame claim.companion_id db (round (pure_handlers answers) claim lease_ms (quiet now) db).1
unfolding round
round-Frame answers claim lease_ms now db =
    elim (Option-cases (next_due_job claim.companion_id now db)) [
      | inl e ↦ rw (e, round) (Frame-refl claim.companion_id db)
      | inr (q, e) ↦
          let (f, h, ran) = run_quiet answers q claim db in
          rw (e, round)
            (rw ran (
              Frame-trans claim.companion_id db (fenced_update q.id claim f db).1 _
                (fenced_update-Frame q.id claim f db h)
                (renew-Frame claim.companion_id claim.owner lease_ms now _)))
    ]

pub drain-Frame :
    (answers : JobType → Option (QueuedJob → HandlerOutcome)) (claim : ClaimedCompanion)
    (lease_ms now n : ℕ) (db : Db)
    → Frame claim.companion_id db
        (drain (pure_handlers answers) claim lease_ms true (replicate n (quiet now)) db).0
unfolding drain
drain-Frame answers claim lease_ms now zero db = Frame-refl claim.companion_id db
drain-Frame answers claim lease_ms now (suc n) db =
    elim (Bool-cases (round (pure_handlers answers) claim lease_ms (quiet now) db).0) [
      | inl e ↦
          rw (e, drain)
            (Frame-trans claim.companion_id db _ _ (round-Frame answers claim lease_ms now db)
              (drain-Frame answers claim lease_ms now n _))
      | inr e ↦
          rw (e, drain)
            (Frame-trans claim.companion_id db _ _ (round-Frame answers claim lease_ms now db)
              (leave-Frame claim _))
    ]
