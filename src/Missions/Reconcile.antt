-- ===== src/Missions/Reconcile.antt =====
-- Reconciliations compose, and a wake of a mission that is over disarms its jobs.
use cobble_companion.Base.{
  ℕ, ◌≡◌, ◌↔◌, refl, subst, ◌==◌, ==_iff, ==_self, Bool-cases, inl, inr, ap, ◌∙◌, Bool, true, false,
  ◌&&◌, ◌||◌, not, Option, none, some, List, [], ◌∷◌, if◌then◌else◌, map_option, find_where,
  find_where-update_where_self, arith,
}
use cobble_companion.Missions.Store.{
  active, MissionRow, Db, has_id, find_by_id, contains, add_once, union, without, settle_jobs,
  reconcile_row, reconcile_jobs,
}
use cobble_companion.Missions.Service.{
  World, is_mission_terminal, cancelled_of, failed_of, is_nil, reconcile_mission_jobs, advance,
  skip, mission_not_active, unknown_mission, route_mission_advance,
}

contains-union :
    (js ks : List ℕ) (j : ℕ) → contains (union js ks) j ≡ (contains js j || contains ks j)
unfolding union add_once
contains-union [] ks j = refl
contains-union (i ∷ js) ks j = ground (arith, contains-union js ks j, contains-union js ks i)

pub contains-without :
    (cancelled js : List ℕ) (j : ℕ)
    → contains (without cancelled js) j ≡ (contains js j && not (contains cancelled j))
unfolding without
contains-without cancelled [] j = refl
contains-without cancelled (i ∷ js) j = ground (arith, contains-without cancelled js j)

-- What a settled list holds: what it held and was not cancelled, and what failed.
pub settle_jobs_lem :
    (cancelled failed_ids current : List ℕ) (j : ℕ)
    → contains (settle_jobs cancelled failed_ids current) j
      ≡ ((contains current j && not (contains cancelled j)) || contains failed_ids j)
unfolding settle_jobs
settle_jobs_lem cancelled failed_ids current j = ground (
  arith,
  contains-union (without cancelled current) (union failed_ids []) j,
  contains-without cancelled current j,
  contains-union failed_ids [] j,
)

-- Two reconciliations of one mission, of which neither cancels what failed for the other, leave the
-- same ids in either order: neither undoes what the other removed.
settle_jobs_comm :
    (c₁ f₁ c₂ f₂ current : List ℕ) (j : ℕ)
    → (contains f₁ j && contains c₂ j) ≡ false
    → (contains f₂ j && contains c₁ j) ≡ false
    → contains (settle_jobs c₁ f₁ (settle_jobs c₂ f₂ current)) j
      ≡ contains (settle_jobs c₂ f₂ (settle_jobs c₁ f₁ current)) j
settle_jobs_comm c₁ f₁ c₂ f₂ current j h k = ground (
  arith,
  settle_jobs_lem c₁ f₁ (settle_jobs c₂ f₂ current) j,
  settle_jobs_lem c₂ f₂ current j,
  settle_jobs_lem c₂ f₂ (settle_jobs c₁ f₁ current) j,
  settle_jobs_lem c₁ f₁ current j,
)

pub contains-cancelled_of :
    (cancels : ℕ → Bool) (js : List ℕ) (j : ℕ)
    → contains (cancelled_of cancels js) j ≡ (contains js j && cancels j)
unfolding cancelled_of
contains-cancelled_of cancels [] j = refl
contains-cancelled_of cancels (i ∷ js) j = ground (arith, contains-cancelled_of cancels js j)

pub contains-failed_of :
    (cancels : ℕ → Bool) (js : List ℕ) (j : ℕ)
    → contains (failed_of cancels js) j ≡ (contains js j && not (cancels j))
unfolding failed_of
contains-failed_of cancels [] j = refl
contains-failed_of cancels (i ∷ js) j = ground (arith, contains-failed_of cancels js j)

abbrev pub jobs_of : Option MissionRow → List ℕ
jobs_of none = []
jobs_of (some m) = m.job_ids

reconciled_row :
    (id : ℕ) (cancelled failed_ids : List ℕ) (db : Db)
    → find_by_id id (reconcile_jobs id cancelled failed_ids db).1
      ≡ map_option (reconcile_row cancelled failed_ids) (find_by_id id db)
unfolding find_by_id reconcile_jobs reconcile_row
reconciled_row id cancelled failed_ids db =
    find_where-update_where_self (has_id id) (reconcile_row cancelled failed_ids) (λ m h. h)
      db.missions

split_nil :
    (cancels : ℕ → Bool) (js : List ℕ)
    → (is_nil (cancelled_of cancels js) && is_nil (failed_of cancels js)) ≡ is_nil js
unfolding cancelled_of failed_of
split_nil cancels [] = refl
split_nil cancels (j ∷ js) = ground arith

-- One pass over the recorded jobs of a mission, with a write that succeeds.
pub reconcile_mission_jobs_lem :
    (cancels : ℕ → Bool) (id : ℕ) (jobs : List ℕ) (w : World) (m : MissionRow)
    → find_by_id id w.db ≡ some m
    → is_nil jobs ≡ false
    → let w' = (reconcile_mission_jobs cancels true id jobs w).1 in
      (find_by_id id w'.db
        ≡ some (reconcile_row (cancelled_of cancels jobs) (failed_of cancels jobs) m))
      × (w'.armed ≡ without (cancelled_of cancels jobs) w.armed)
unfolding reconcile_mission_jobs
reconcile_mission_jobs_lem cancels id jobs w m e h = rw (split_nil cancels jobs) (
    rw h (
      reconciled_row id (cancelled_of cancels jobs) (failed_of cancels jobs) w.db
          ∙ ap (map_option (reconcile_row (cancelled_of cancels jobs) (failed_of cancels jobs))) e,
      refl,
    ))

found_row :
    (id : ℕ) (rows : List MissionRow) (m : MissionRow)
    → find_where (has_id id) rows ≡ some m
    → m.id ≡ id
unfolding find_where
found_row id [] m e = cc
found_row id (r ∷ rows) m e = ground (arith, found_row id rows m)

nil_contains : (js : List ℕ) (j : ℕ) → is_nil js ≡ true → contains js j ≡ false
nil_contains [] j h = refl
nil_contains (i ∷ js) j h = cc

pub settled_contains :
    (cancels : ℕ → Bool) (js : List ℕ) (j : ℕ)
    → contains (settle_jobs (cancelled_of cancels js) (failed_of cancels js) js) j
      ≡ (contains js j && not (cancels j))
settled_contains cancels js j = ground (
  arith,
  settle_jobs_lem (cancelled_of cancels js) (failed_of cancels js) js j,
  contains-cancelled_of cancels js j,
  contains-failed_of cancels js j,
)

pub found_id : (id : ℕ) (db : Db) (m : MissionRow) → find_by_id id db ≡ some m → m.id ≡ id
unfolding find_by_id
found_id id db m e = found_row id db.missions m e

route_over :
    (cancels : ℕ → Bool) (records : Bool) (id : ℕ) (w : World) (m : MissionRow)
    → find_by_id id w.db ≡ some m
    → is_mission_terminal m.status ≡ true
    → route_mission_advance cancels records m.companion_id id w ≡ (
      skip mission_not_active,
      if is_nil m.job_ids then w else (reconcile_mission_jobs cancels records id m.job_ids w).1,
    )
unfolding route_mission_advance
route_over cancels records id w m e over =
    rw (e, route_mission_advance)
      (rw (found_id id w.db m e) (ground (arith, ==_self m.companion_id)))

-- After the pass over the jobs of a mission: what is armed, and what stays recorded.
abbrev Disarmed : (ℕ → Bool) → Bool → ℕ → MissionRow → ℕ → World → World → Type 0
Disarmed cancels records id m j w w' =
    (contains w'.armed j ≡ (contains w.armed j && not (contains m.job_ids j && cancels j)))
    × (contains (jobs_of (find_by_id id w'.db)) j
        ≡ (contains m.job_ids j && not (records && cancels j)))

without-cancelled_of :
    (cancels : ℕ → Bool) (jobs armed : List ℕ) (j : ℕ)
    → contains (without (cancelled_of cancels jobs) armed) j
      ≡ (contains armed j && not (contains jobs j && cancels j))
without-cancelled_of cancels jobs armed j = ground (
  arith,
  contains-without (cancelled_of cancels jobs) armed j,
  contains-cancelled_of cancels jobs j,
)

Disarmed-reconcile :
    (cancels : ℕ → Bool) (records : Bool) (id : ℕ) (w : World) (m : MissionRow) (j : ℕ)
    → find_by_id id w.db ≡ some m
    → is_nil m.job_ids ≡ false
    → Disarmed cancels records id m j w (reconcile_mission_jobs cancels records id m.job_ids w).1
unfolding reconcile_mission_jobs settle_jobs reconcile_row
Disarmed-reconcile cancels false id w m j e h = (
  without-cancelled_of cancels m.job_ids w.armed j,
  ap (λ x. contains (jobs_of x) j) e ∙ ground arith,
)
Disarmed-reconcile cancels true id w m j e h =
    let (row, armed) = reconcile_mission_jobs_lem cancels id m.job_ids w m e h in
    (
      ap (λ (x : List ℕ). contains x j) armed ∙ without-cancelled_of cancels m.job_ids w.armed j,
      ap (λ x. contains (jobs_of x) j) row ∙ settled_contains cancels m.job_ids j,
    )

Disarmed-nil :
    (cancels : ℕ → Bool) (records : Bool) (id : ℕ) (w : World) (m : MissionRow) (j : ℕ)
    → find_by_id id w.db ≡ some m
    → is_nil m.job_ids ≡ true
    → Disarmed cancels records id m j w w
Disarmed-nil cancels records id w m j e h = (
  ground (arith, nil_contains m.job_ids j h),
  ap (λ x. contains (jobs_of x) j) e ∙ ground (arith, nil_contains m.job_ids j h),
)

route_mine :
    (cancels : ℕ → Bool) (records : Bool) (id : ℕ) (w : World) (m : MissionRow) (j : ℕ)
    → find_by_id id w.db ≡ some m
    → is_mission_terminal m.status ≡ true
    → let (routing, w') = route_mission_advance cancels records m.companion_id id w in
      (routing ≡ skip mission_not_active) × Disarmed cancels records id m j w w'
route_mine cancels records id w m j e over = rw (route_over cancels records id w m e over) (
  refl,
  elim (Bool-cases (is_nil m.job_ids)) [
    | inl h ↦ rw h (Disarmed-nil cancels records id w m j e h)
    | inr h ↦ rw h (Disarmed-reconcile cancels records id w m j e h)
  ],
)

-- A wake of any companion that names a mission which is over. Where the mission is that companion's,
-- the turn is skipped as of a mission that is not active; of the jobs that the mission has recorded
-- exactly those whose cancellation succeeds are disarmed, and exactly the others stay recorded, or all
-- of them where the settling write fails. Where it is another companion's, the mission is taken as
-- unknown, nothing is disarmed and all the jobs stay recorded. No other job is disarmed.
pub route_mission_advance_stale :
    (cancels : ℕ → Bool) (records : Bool) (companion id : ℕ) (w : World) (m : MissionRow) (j : ℕ)
    → find_by_id id w.db ≡ some m
    → is_mission_terminal m.status ≡ true
    → let (routing, w') = route_mission_advance cancels records companion id w in
      let mine = m.companion_id == companion in
      (routing ≡ skip (if mine then mission_not_active else unknown_mission))
      × (contains w'.armed j
          ≡ (contains w.armed j && not (mine && contains m.job_ids j && cancels j)))
      × (contains (jobs_of (find_by_id id w'.db)) j
          ≡ (contains m.job_ids j && not (mine && records && cancels j)))
unfolding route_mission_advance
route_mission_advance_stale cancels records companion id w m j e over =
    elim (Bool-cases (m.companion_id == companion)) [
      | inl mine ↦
          let same = (==_iff m.companion_id companion).0 mine in
          let (skips, (armed, recorded)) =
            subst
              (λ c.
                let (routing, w') = route_mission_advance cancels records c id w in
                (routing ≡ skip mission_not_active) × Disarmed cancels records id m j w w')
              same (route_mine cancels records id w m j e over) in
          rw mine (skips, armed, recorded)
      | inr theirs ↦
          rw (e, route_mission_advance, theirs)
            (refl, ground arith, ap (λ x. contains (jobs_of x) j) e ∙ ground arith)
    ]

-- A wake runs a turn exactly where it names an active mission of the companion.
route_mission_advance_iff :
    (cancels : ℕ → Bool) (records : Bool) (companion id : ℕ) (w : World) (m : MissionRow)
    → ((route_mission_advance cancels records companion id w).0 ≡ advance m)
      ↔ ((find_by_id id w.db ≡ some m) × (m.companion_id ≡ companion) × (m.status ≡ active))
unfolding route_mission_advance
route_mission_advance_iff cancels records companion id w m = (λ h. ground arith, λ h. ground arith)
