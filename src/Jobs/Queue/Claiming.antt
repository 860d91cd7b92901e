-- ===== src/Jobs/Queue/Claiming.antt =====
-- The claim loop: which companion it takes, and that it takes one whenever there is work.
use cobble_companion.Base.{
  ℕ, ◌+◌, ◌≤◌, ◌≡◌, ◌≢◌, refl, subst, inl, inr, true, some, List, [], ◌∷◌, Option-cases, All,
  All-In, In, All-imp, All-select_where, put, arith, some_inj,
}
use cobble_companion.Jobs.Tables.{Db, JobRow, ClaimedCompanion}
use cobble_companion.Jobs.Queue.{
  Group, claimable, groups, sort_by_time, candidates, try_claim, claim_first, claim_next_companion,
}
use cobble_companion.Jobs.Queue.Groups.{
  eligible, IsOldest, Covered, groups-IsOldest, groups-Covered, sort_by_time-All, LeadsBy,
  sort_by_time-LeadsBy,
}

-- What a claim that is won leaves in the tables.
abbrev pub Won : List ℕ → ℕ → ℕ → (ℕ → ℕ) → Db → ClaimedCompanion → Type 0
Won cs owner lease_ms clock db claim =
    In claim.companion_id cs
    × (claim.owner ≡ owner)
    × (db.claims claim.companion_id
        ≡ some (record {
          owner = owner;
          generation = claim.generation;
          claimed_until = clock claim.companion_id + lease_ms;
        }))

try_claim_won :
    (c owner lease_ms now g : ℕ) (db : Db)
    → (try_claim c owner lease_ms now db).0 ≡ some g
    → (try_claim c owner lease_ms now db).1.claims c
      ≡ some (record { owner = owner; generation = g; claimed_until = now + lease_ms })
unfolding try_claim put
try_claim_won c owner lease_ms now g db h = ground arith

claim_first-Won :
    (cs : List ℕ) (owner lease_ms : ℕ) (clock : ℕ → ℕ) (others : ℕ → Db → Db) (db : Db)
    (claim : ClaimedCompanion)
    → (claim_first cs owner lease_ms clock others db).0 ≡ some claim
    → Won cs owner lease_ms clock (claim_first cs owner lease_ms clock others db).1 claim
unfolding claim_first
claim_first-Won [] owner lease_ms clock others db claim h = cc
claim_first-Won (c ∷ cs) owner lease_ms clock others db claim h =
    elim (Option-cases (try_claim c owner lease_ms (clock c) (others c db)).0) [
      | inl e ↦
          let (m, o, r) =
            claim_first-Won cs owner lease_ms clock others
              (try_claim c owner lease_ms (clock c) (others c db)).1 claim
              (rw (e, claim_first) at h) in
          (inr m, o, rw (e, claim_first) r)
      | inr (g, e) ↦
          subst
            (Won (c ∷ cs) owner lease_ms clock
              (claim_first (c ∷ cs) owner lease_ms clock others db).1)
            (some_inj (rw (e, claim_first) at h))
            (
              inl refl,
              refl,
              rw (e, claim_first) (try_claim_won c owner lease_ms (clock c) g (others c db) e),
            )
    ]

-- Whatever the other nodes do between the attempts: a claim that is returned is one of the candidate
-- companions, and stands in the table under its owner and its generation, with a full lease.
pub claim_next_companion-Won :
    (owner lease_ms now : ℕ) (clock : ℕ → ℕ) (others : ℕ → Db → Db) (db : Db)
    (claim : ClaimedCompanion)
    → (claim_next_companion owner lease_ms now clock others db).0 ≡ some claim
    → Won
        (candidates now db)
        owner
        lease_ms
        clock
        (claim_next_companion owner lease_ms now clock others db).1
        claim
unfolding claim_next_companion
claim_next_companion-Won owner lease_ms now clock others db claim h =
    claim_first-Won (candidates now db) owner lease_ms clock others db claim h

-- The row that decides which companion is taken: the oldest of all that are eligible.
abbrev pub Oldest : ℕ → Db → ℕ → Type 0
Oldest now db companion =
    (r : JobRow) × In r (eligible now db)
    × (r.companion_id ≡ companion)
    × All (λ s. r.run_at ≤ s.run_at) (eligible now db)

try_claim_open :
    (c owner lease_ms now : ℕ) (db : Db)
    → claimable now (db.claims c) ≡ true
    → (g : ℕ) × ((try_claim c owner lease_ms now db).0 ≡ some g)
unfolding try_claim claimable
try_claim_open c owner lease_ms now db h = elim (Option-cases (db.claims c)) [
  | inl e ↦ (1, ground arith)
  | inr (row, e) ↦ (row.generation + 1, ground arith)
]

groups-nil : (rs : List JobRow) → groups rs ≡ [] → rs ≡ []
groups-nil [] h = refl
groups-nil (r ∷ rs) h =
    let (g, m, l) = subst (λ gs. Covered gs r) h (groups-Covered (r ∷ rs)).0 in absurd m

leader-Oldest :
    (now : ℕ) (db : Db) (h : Group)
    → IsOldest (eligible now db) h
    → All (λ g. h.1 ≤ g.1) (groups (eligible now db))
    → Oldest now db h.0 × (claimable now (db.claims h.0) ≡ true)
leader-Oldest now db h (r, m, c, t) leads =
    let rows = eligible now db in
    let fits = All-In _ rows (All-select_where _ db.jobs) r m in
    (
      (
        r,
        m,
        c,
        All-imp (Covered (groups rows)) (λ s. r.run_at ≤ s.run_at)
            (λ s (g, mg, l). omega (arith, All-In (λ g. h.1 ≤ g.1) (groups rows) leads g mg)) rows
            (groups-Covered rows),
      ),
      subst (λ x. claimable now (db.claims x) ≡ true) c (ground (arith, fits)),
    )

claim_first-head :
    (c owner lease_ms now g : ℕ) (cs : List ℕ) (db : Db)
    → (try_claim c owner lease_ms now db).0 ≡ some g
    → (claim_first (c ∷ cs) owner lease_ms (λ _. now) (λ _ d. d) db).0
      ≡ some (record { companion_id = c; owner = owner; generation = g })
unfolding claim_first
claim_first-head c owner lease_ms now g cs db e = rw (e, claim_first)

-- With eligible work and nobody in between, a node gets a claim, and of a companion with an eligible
-- job that no other eligible job precedes in time.
pub claim_next_companion_progress :
    (owner lease_ms now : ℕ) (db : Db)
    → eligible now db ≢ []
    → (claim : ClaimedCompanion) × ((claim_next_companion owner lease_ms now
          (λ _. now)
          (λ _ d. d)
          db).0
        ≡ some claim)
      × Oldest now db claim.companion_id
unfolding claim_next_companion candidates
claim_next_companion_progress owner lease_ms now db some_work =
    take_leader (sort_by_time gs) refl (sort_by_time-LeadsBy gs)
      (sort_by_time-All (IsOldest (eligible now db)) gs (groups-IsOldest (eligible now db)))
  where
    gs : List Group
    gs = groups (eligible now db)

    take_leader :
        (hs : List Group)
        → sort_by_time gs ≡ hs
        → LeadsBy hs gs
        → All (IsOldest (eligible now db)) hs
        → (claim : ClaimedCompanion) × ((claim_next_companion owner lease_ms now
              (λ _. now)
              (λ _ d. d)
              db).0
            ≡ some claim)
          × Oldest now db claim.companion_id
    take_leader [] e leads oldest = absurd (some_work (groups-nil (eligible now db) leads))
    take_leader (h ∷ hs) e leads oldest =
        let (first, open_claim) = leader-Oldest now db h oldest.0 leads in
        let (g, won) = try_claim_open h.0 owner lease_ms now db open_claim in
        (
          record { companion_id = h.0; owner = owner; generation = g },
          rw e (claim_first-head h.0 owner lease_ms now g _ db won),
          first,
        )
