-- ===== src/Jobs/Pool/Draining.antt =====
-- One loop, left alone, does all the work that can be claimed.
use cobble_companion.Base.{
  ℕ, zero, suc, ◌+◌, ◌≤◌, ◌<◌, ◌≡◌, ◌≢◌, ◌⊎◌, refl, sym, subst, ap, ◌∙◌, inl, inr, true, false, not,
  ◌&&◌, Option, none, some, List, [], ◌∷◌, ◌==◌, In, In-select_where, All-In, All-select_where,
  arith, count_where, count_where-select_where, ==_self, replicate,
}
use cobble_companion.Jobs.Tables.{
  JobType, Db, JobRow, ClaimRow, QueuedJob, ClaimedCompanion, is_pending,
}
use cobble_companion.Jobs.Queue.{
  claimable, is_due, candidates, claim_first, claim_next_companion, groups, sort_by_time,
}
use cobble_companion.Jobs.Queue.Groups.{eligible}
use cobble_companion.Jobs.Queue.Claiming.{
  Oldest, claim_next_companion-Won, claim_next_companion_progress,
}
use cobble_companion.Jobs.Processor.{HandlerOutcome, drain}
use cobble_companion.Jobs.Processor.Drain.{quiet, pure_handlers, due, Holds, drain-empties}
use cobble_companion.Jobs.Pool.{Visit, drain_loop}
use cobble_companion.Jobs.Pool.Frame.{Frame-trans, claim_first-Frame, drain-Frame, Frame}

-- The jobs that a node could be handed, as a count.
abbrev pub open_work : ℕ → Db → ℕ
open_work now db =
    count_where (λ r. is_due now r && claimable now (db.claims r.companion_id)) db.jobs

-- Those of the other companions.
abbrev elsewhere : ℕ → ℕ → (ℕ → Option ClaimRow) → List JobRow → ℕ
elsewhere c now claims jobs =
    count_where
      (λ r. not (r.companion_id == c) && (is_due now r && claimable now (claims r.companion_id)))
      jobs

elsewhere-claims :
    (c now : ℕ) (a b : ℕ → Option ClaimRow)
    → ((d : ℕ) → (d == c) ≡ false → b d ≡ a d)
    → (jobs : List JobRow) → elsewhere c now b jobs ≡ elsewhere c now a jobs
unfolding count_where
elsewhere-claims c now a b h [] = refl
elsewhere-claims c now a b h (r ∷ jobs) =
    ground (arith, h r.companion_id, elsewhere-claims c now a b h jobs)

open_work_le :
    (c now : ℕ) (claims : ℕ → Option ClaimRow) (jobs : List JobRow)
    → count_where (λ r. is_due now r && claimable now (claims r.companion_id)) jobs
      ≤ elsewhere c now claims jobs + count_where (λ r. r.companion_id == c && is_due now r) jobs
unfolding count_where
open_work_le c now claims [] = omega arith
open_work_le c now claims (r ∷ jobs) = ground (arith, open_work_le c now claims jobs)

elsewhere_le :
    (c now : ℕ) (claims : ℕ → Option ClaimRow) (jobs : List JobRow)
    → elsewhere c now claims jobs
      ≤ count_where (λ r. is_due now r && claimable now (claims r.companion_id)) jobs
unfolding count_where
elsewhere_le c now claims [] = omega arith
elsewhere_le c now claims (r ∷ jobs) = ground (arith, elsewhere_le c now claims jobs)

elsewhere_lt :
    (c now : ℕ) (claims : ℕ → Option ClaimRow) (jobs : List JobRow) (r : JobRow)
    → In r jobs
    → (is_due now r && claimable now (claims r.companion_id)) ≡ true
    → r.companion_id ≡ c
    → elsewhere c now claims jobs
      < count_where (λ r. is_due now r && claimable now (claims r.companion_id)) jobs
unfolding count_where
elsewhere_lt c now claims [] r m h e = absurd m
elsewhere_lt c now claims (s ∷ jobs) r (inl same) h e = ground (
  arith,
  elsewhere_le c now claims jobs,
  subst (λ x. (is_due now x && claimable now (claims x.companion_id)) ≡ true) same h,
  subst (λ (x : JobRow). x.companion_id ≡ c) same e,
  ==_self c,
)
elsewhere_lt c now claims (s ∷ jobs) r (inr m) h e =
    ground (arith, elsewhere_lt c now claims jobs r m h e)

-- Nobody interferes, and the drain has `rounds` rounds.
abbrev pub quiet_visit : ℕ → ℕ → Visit
quiet_visit now rounds = record {
  stopping = false;
  claim_throws = false;
  now = now;
  clock = λ _. now;
  others = λ _ db. db;
  rounds = replicate rounds (quiet now);
  released = true;
}

nothing_to_claim :
    (owner lease_ms now : ℕ) (db : Db)
    → eligible now db ≡ []
    → claim_next_companion owner lease_ms now (λ _. now) (λ _ d. d) db ≡ (none, db)
unfolding claim_next_companion candidates groups sort_by_time claim_first
nothing_to_claim owner lease_ms now db h = rw h refl

claimed-Holds :
    (owner lease_ms now : ℕ) (db : Db) (claim : ClaimedCompanion)
    → (claim_next_companion owner lease_ms now (λ _. now) (λ _ d. d) db).0 ≡ some claim
    → Holds claim now (claim_next_companion owner lease_ms now (λ _. now) (λ _ d. d) db).1
claimed-Holds owner lease_ms now db claim h =
    let (there, mine, row) =
      claim_next_companion-Won owner lease_ms now (λ _. now) (λ _ d. d) db claim h in
    (_, row, sym mine, refl, omega arith)

claimed-Frame :
    (owner lease_ms now : ℕ) (db : Db) (claim : ClaimedCompanion)
    → (claim_next_companion owner lease_ms now (λ _. now) (λ _ d. d) db).0 ≡ some claim
    → Frame claim.companion_id db
        (claim_next_companion owner lease_ms now (λ _. now) (λ _ d. d) db).1
unfolding claim_next_companion
claimed-Frame owner lease_ms now db claim h =
    claim_first-Frame (candidates now db) owner lease_ms now db claim h

due_le :
    (c now : ℕ) (jobs : List JobRow)
    → count_where (λ r. r.companion_id == c && is_due now r) jobs ≤ count_where (is_due now) jobs
unfolding count_where
due_le c now [] = omega arith
due_le c now (r ∷ jobs) = ground (arith, due_le c now jobs)

is_due-pending : (now : ℕ) (r : JobRow) → is_due now r ≡ true → is_pending r.status ≡ true
unfolding is_due
is_due-pending now r h = ground arith

-- A companion that is drained counts no more, and the others count no more than before.
drained_lt :
    (c now : ℕ) (db db' : Db)
    → Frame c db db'
    → due c now db' ≡ 0
    → Oldest now db c
    → open_work now db' < open_work now db
drained_lt c now db db' f none_due (r, m, mine, first) = omega (
  arith,
  open_work_le c now db'.claims db'.jobs,
  elsewhere-claims c now db.claims db'.claims f.others db'.jobs,
  f.fewer
      (λ r. not (r.companion_id == c) && (is_due now r && claimable now (db.claims r.companion_id)))
      (λ s h. ground (arith, is_due-pending now s)),
  elsewhere_lt c now db.claims db.jobs r (In-select_where _ db.jobs r m)
      (All-In _ (eligible now db) (All-select_where _ db.jobs) r m) mine,
)

-- One visit of a claim: the drain ends, the work that is open falls, and no more is due than before.
visit_lem :
    (answers : JobType → Option (QueuedJob → HandlerOutcome)) (owner lease_ms now m : ℕ) (db : Db)
    (claim : ClaimedCompanion)
    → (claim_next_companion owner lease_ms now (λ _. now) (λ _ d. d) db).0 ≡ some claim
    → Oldest now db claim.companion_id
    → count_where (is_due now) db.jobs < m
    → let db₁ = (claim_next_companion owner lease_ms now (λ _. now) (λ _ d. d) db).1 in
      let (db₂, ended) =
        drain (pure_handlers answers) claim lease_ms true (replicate m (quiet now)) db₁ in
      (ended ≡ true)
      × (open_work now db₂ < open_work now db)
      × (count_where (is_due now) db₂.jobs ≤ count_where (is_due now) db.jobs)
visit_lem answers owner lease_ms now m db claim h oldest enough =
    let db₁ = (claim_next_companion owner lease_ms now (λ _. now) (λ _ d. d) db).1 in
    let f = claimed-Frame owner lease_ms now db claim h in
    let g =
      Frame-trans claim.companion_id db db₁ _ f (drain-Frame answers claim lease_ms now m db₁) in
    let (ended, none_due) =
      drain-empties answers claim lease_ms now m db₁ (claimed-Holds owner lease_ms now db claim h) (
        omega (
          arith,
          due_le claim.companion_id now db₁.jobs,
          f.fewer (is_due now) (is_due-pending now),
        )) in
    (
      ended,
      drained_lt claim.companion_id now db _ g none_due oldest,
      g.fewer (is_due now) (is_due-pending now),
    )

nil_cases : (rows : List JobRow) → (rows ≡ []) ⊎ (rows ≢ [])
nil_cases [] = inl refl
nil_cases (r ∷ rows) = inr (λ e. cc)

-- One loop with nobody in between, no signal to stop and no statement that throws, where the clock
-- stands still and the handlers leave the tables alone: it ends after at most one visit for each job
-- that a node could be handed and one more, each with one round for each due job and one more, whatever
-- the handlers answer; and then there is no job that a node could be handed, of any companion.
pub drain_loop-finishes :
    (answers : JobType → Option (QueuedJob → HandlerOutcome)) (owner lease_ms now m n : ℕ) (db : Db)
    → open_work now db < n
    → count_where (is_due now) db.jobs < m
    → let (db', ended) =
        drain_loop (pure_handlers answers) owner lease_ms (replicate n (quiet_visit now m)) db in
      (ended ≡ true) × (open_work now db' ≡ 0)
unfolding drain_loop
drain_loop-finishes answers owner lease_ms now m zero db enough rounds = absurd (omega arith)
drain_loop-finishes answers owner lease_ms now m (suc n) db enough rounds =
    elim (nil_cases (eligible now db)) [
      | inl e ↦
          let nothing = nothing_to_claim owner lease_ms now db e in
          rw (ap (λ (x : Option ClaimedCompanion × Db). x.0) nothing, drain_loop)
            (
              refl,
              ap (λ (x : Option ClaimedCompanion × Db). open_work now x.1) nothing
                  ∙ count_where-select_where _ db.jobs e,
            )
      | inr some_work ↦
          let (claim, won, oldest) =
            claim_next_companion_progress owner lease_ms now db some_work in
          let (ended, fewer, still) =
            visit_lem answers owner lease_ms now m db claim won oldest rounds in
          rw (won, drain_loop)
            (rw ended (
              drain_loop-finishes answers owner lease_ms now m n _ (omega (arith, fewer))
                (omega (arith, still))))
    ]
