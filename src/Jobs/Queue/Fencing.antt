-- ===== src/Jobs/Queue/Fencing.antt =====
-- Claims: who holds a companion, and which terminal writes the fence lets through.
use cobble_companion.Base.{
  ℕ, ◌+◌, ◌≤◌, ◌<◌, ◌≡◌, Bool, true, false, ◌&&◌, none, some, List, [], ◌∷◌, ◌==◌, Text, All, put,
  arith, ==_self,
}
use cobble_companion.Jobs.Tables.{Db, ClaimRow, ClaimedCompanion}
use cobble_companion.Jobs.Queue.{
  enqueue, try_claim, claim_still_held, mark_done, mark_failed, renew_claim, release_claim,
}
use cobble_companion.Jobs.Queue.Trace.{
  Statement, enqueues, claims, marks_done, marks_failed, renews, releases, step, run,
}

-- A renewal or a release that `owner` issues for the companion.
abbrev pub acts_as : ℕ → ℕ → Statement → Bool
acts_as owner c (renews d o lease_ms) = d == c && o == owner
acts_as owner c (releases d o) = d == c && o == owner
acts_as owner c _ = false

-- A release of the companion's claim, by any owner.
abbrev pub frees : ℕ → Statement → Bool
frees c (releases d o) = d == c
frees c _ = false

step-keeps_claim :
    (c now : ℕ) (s : Statement) (db : Db) (row : ClaimRow)
    → db.claims c ≡ some row
    → now ≤ row.claimed_until
    → acts_as row.owner c s ≡ false
    → (step now s db).claims c ≡ some row
unfolding step enqueue try_claim mark_done mark_failed renew_claim release_claim put
step-keeps_claim c now (enqueues p app_now) db row e t a = ground arith
step-keeps_claim c now (claims d o lease_ms) db row e t a = ground arith
step-keeps_claim c now (marks_done job claim) db row e t a = ground arith
step-keeps_claim c now (marks_failed job error claim) db row e t a = ground arith
step-keeps_claim c now (renews d o lease_ms) db row e t a = ground arith
step-keeps_claim c now (releases d o) db row e t a = ground arith

-- While a lease runs, whatever statements all the nodes issue, short of a renewal or a release in the
-- holder's own name, the claim stays as it is, and whoever tries to claim the companion gets nothing.
pub run-exclusive :
    (c : ℕ) (ss : List (ℕ × Statement)) (db : Db) (row : ClaimRow) (o lease_ms now : ℕ)
    → db.claims c ≡ some row
    → All (λ (e : ℕ × Statement). (e.0 ≤ row.claimed_until) × (acts_as row.owner c e.1 ≡ false)) ss
    → now ≤ row.claimed_until
    → ((run ss db).claims c ≡ some row)
      × (try_claim c o lease_ms now (run ss db) ≡ (none, run ss db))
unfolding run try_claim
run-exclusive c [] db row o lease_ms now e h t = (e, ground arith)
run-exclusive c ((t', s) ∷ ss) db row o lease_ms now e h t =
    run-exclusive c ss (step t' s db) row o lease_ms now
      (step-keeps_claim c t' s db row e h.0.0 h.0.1) h.1 t

-- The generation of the companion's claim; 0 where there is none.
newest : ℕ → Db → ℕ
newest c db = elim (db.claims c) [ none ↦ 0 | some row ↦ row.generation ]

step-newest :
    (c now : ℕ) (s : Statement) (db : Db)
    → frees c s ≡ false
    → newest c db ≤ newest c (step now s db)
unfolding step enqueue try_claim mark_done mark_failed renew_claim release_claim put newest
step-newest c now (enqueues p app_now) db a = ground arith
step-newest c now (claims d o lease_ms) db a = ground arith
step-newest c now (marks_done job claim) db a = ground arith
step-newest c now (marks_failed job error claim) db a = ground arith
step-newest c now (renews d o lease_ms) db a = ground arith
step-newest c now (releases d o) db a = ground arith

run-newest :
    (c : ℕ) (ss : List (ℕ × Statement)) (db : Db)
    → All (λ (e : ℕ × Statement). frees c e.1 ≡ false) ss
    → newest c db ≤ newest c (run ss db)
unfolding run
run-newest c [] db h = omega arith
run-newest c ((t, s) ∷ ss) db h =
    omega (arith, step-newest c t s db h.0, run-newest c ss (step t s db) h.1)

-- A claim behind the newest generation cannot write.
behind_fenced :
    (claim : ClaimedCompanion) (db : Db)
    → claim.generation < newest claim.companion_id db
    → claim_still_held claim db ≡ false
unfolding claim_still_held newest
behind_fenced claim db h = ground arith

try_claim-supersedes :
    (claim : ClaimedCompanion) (db : Db) (o lease_ms now : ℕ) {g : ℕ}
    → claim_still_held claim db ≡ true
    → (try_claim claim.companion_id o lease_ms now db).0 ≡ some g
    → claim.generation
      < newest claim.companion_id (try_claim claim.companion_id o lease_ms now db).1
unfolding claim_still_held newest try_claim put
try_claim-supersedes claim db o lease_ms now h won = ground arith

-- Once a claim that held is taken over, by whatever node, its terminal writes are refused and change
-- nothing, however the nodes' statements go on, as long as nobody releases that companion.
pub reclaim_fences :
    (claim : ClaimedCompanion) (db : Db) (o lease_ms now : ℕ) {g : ℕ} (ss : List (ℕ × Statement))
    (job : ℕ) (error : Text)
    → claim_still_held claim db ≡ true
    → (try_claim claim.companion_id o lease_ms now db).0 ≡ some g
    → All (λ (e : ℕ × Statement). frees claim.companion_id e.1 ≡ false) ss
    → let db' = run ss (try_claim claim.companion_id o lease_ms now db).1 in
      (mark_done job claim db' ≡ (false, db')) × (mark_failed job error claim db' ≡ (false, db'))
unfolding mark_done mark_failed
reclaim_fences claim db o lease_ms now ss job error h won quiet = (rw shut, rw shut)
  where
    after : Db
    after = run ss (try_claim claim.companion_id o lease_ms now db).1

    shut : claim_still_held claim after ≡ false
    shut = behind_fenced claim after (
        omega (
          arith,
          try_claim-supersedes claim db o lease_ms now h won,
          run-newest claim.companion_id ss (try_claim claim.companion_id o lease_ms now db).1 quiet,
        ))

-- The generation starts again at 1 when a release has deleted the row: node `a` claims an unclaimed
-- companion, its lease runs out, `b` takes over and releases, `a` claims again. The first epoch of `a`,
-- which the takeover had fenced out, passes the fence again.
pub release_revives_stale_claim :
    (c a b lease_ms t₀ t₁ t₂ : ℕ) (db : Db)
    → db.claims c ≡ none
    → t₀ + lease_ms < t₁
    → let stale : ClaimedCompanion = record { companion_id = c; owner = a; generation = 1 } in
      let first = try_claim c a lease_ms t₀ db in
      let taken = try_claim c b lease_ms t₁ first.1 in
      let again = try_claim c a lease_ms t₂ (release_claim c b taken.1) in
      (first.0 ≡ some 1)
      × (claim_still_held stale taken.1 ≡ false)
      × (claim_still_held stale again.1 ≡ true)
unfolding try_claim claim_still_held release_claim put
release_revives_stale_claim c a b lease_ms t₀ t₁ t₂ db e h =
    (ground arith, ground arith, ground arith)

-- A release matches the owner but not the generation: once the lease of a node's claim has run out and
-- the same node claims the companion again, the release that ends its first drain deletes the second
-- claim, and another node can claim the companion while the second drain runs.
pub own_release_frees_reclaim :
    (c a b lease_ms t₁ t₂ : ℕ) (db : Db) (row : ClaimRow)
    → db.claims c ≡ some row
    → row.owner ≡ a
    → row.claimed_until < t₁
    → let second = try_claim c a lease_ms t₁ db in
      let freed = release_claim c a second.1 in
      (second.0 ≡ some (row.generation + 1))
      × (claim_still_held
            (record { companion_id = c; owner = a; generation = row.generation + 1 })
            freed
          ≡ false)
      × ((try_claim c b lease_ms t₂ freed).0 ≡ some 1)
unfolding try_claim release_claim claim_still_held put
own_release_frees_reclaim c a b lease_ms t₁ t₂ db row e mine late =
    (ground arith, ground (arith, ==_self c, ==_self a), ground (arith, ==_self c, ==_self a))
