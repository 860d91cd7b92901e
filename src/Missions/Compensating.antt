-- ===== src/Missions/Compensating.antt =====
-- A draft that will not start, and what its compensation leaves.
use cobble_companion.Base.{
  ℕ, ◌≡◌, refl, ap, ◌∙◌, true, not, some, List, [], ◌∷◌, map_option, find_where, update_where,
  find_where-update_where_self, arith, ==_self,
}
use cobble_companion.Missions.Store.{
  draft, active, stopped, MissionRow, MissionActivation, Db, has_id, is_draft_of, find_by_id,
  activate_row, set_status, set_row_status, refused, contains, reconcile_row,
}
use cobble_companion.Missions.Service.{World, is_mission_terminal, stop, cancelled_of, failed_of}
use cobble_companion.Missions.Reconcile.{
  reconcile_mission_jobs_lem, contains-without, contains-cancelled_of, contains-failed_of,
  settle_jobs_lem,
}
use cobble_companion.Missions.Start.{
  StartMissionArgs, Environment, saved, stop_draft, cancel_orphaned_job, compensate,
}

pub stopped_row :
    (id : ℕ) (db : Db) (m : MissionRow)
    → find_by_id id db ≡ some m
    → m.status ≡ draft
    → find_by_id id (saved db (stop id db)) ≡ some (set_row_status stopped m)
unfolding stop find_by_id saved set_status refused is_mission_terminal set_row_status
stopped_row id db m e d =
    rw (e, stop)
      (rw d (
        rw (e, set_status)
          (find_where-update_where_self (has_id id) (set_row_status stopped) (λ r h. h) db.missions
            ∙ ap (map_option (set_row_status stopped)) e)))

-- Stopping a draft.
pub stop_draft_lem :
    (env : Environment) (id : ℕ) (w : World) (m : MissionRow)
    → env.stops ≡ true
    → find_by_id id w.db ≡ some m
    → m.status ≡ draft
    → (find_by_id id (stop_draft env id w).db ≡ some (set_row_status stopped m))
      × ((stop_draft env id w).armed ≡ w.armed)
unfolding stop_draft
stop_draft_lem env id w m s e d = rw s (stopped_row id w.db m e d, refl)

pub find_draft :
    (id : ℕ) (rows : List MissionRow) (m : MissionRow)
    → find_where (has_id id) rows ≡ some m
    → m.status ≡ draft
    → find_where (is_draft_of id) rows ≡ some m
unfolding find_where is_draft_of
find_draft id [] m e d = cc
find_draft id (r ∷ rows) m e d = ground (arith, find_draft id rows m)

pub find_activated :
    (id : ℕ) (input : MissionActivation) (rows : List MissionRow) (m : MissionRow)
    → find_where (has_id id) rows ≡ some m
    → m.status ≡ draft
    → find_where (has_id id) (update_where (is_draft_of id) (activate_row input) rows)
      ≡ some (activate_row input m)
unfolding find_where update_where is_draft_of activate_row
find_activated id input [] m e d = cc
find_activated id input (r ∷ rows) m e d = ground (arith, find_activated id input rows m)

-- A mission that runs, with the job that wakes it.
abbrev pub Running : StartMissionArgs → ℕ → ℕ → World → Type 0
Running args id job w =
    (m : MissionRow) × (find_by_id id w.db ≡ some m)
    × (m.status ≡ active)
    × (m.plan ≡ some args.plan)
    × (m.job_ids ≡ job ∷ [])
    × (contains w.armed job ≡ true)

-- A draft whose start failed after its wake job was armed.
abbrev pub Undone : Environment → ℕ → ℕ → World → Type 0
Undone env id job w =
    (m : MissionRow) × (find_by_id id w.db ≡ some m)
    × (m.status ≡ stopped)
    × (contains w.armed job ≡ not (env.cancels job))
    × (contains m.job_ids job ≡ not (env.cancels job))

-- The orphaned job is disarmed, or recorded.
orphan_lem :
    (env : Environment) (id job : ℕ) (w : World) (m : MissionRow)
    → env.records ≡ true
    → find_by_id id w.db ≡ some m
    → m.job_ids ≡ []
    → contains w.armed job ≡ true
    → let w' = cancel_orphaned_job env id job w in
      let m' =
        reconcile_row (cancelled_of env.cancels (job ∷ [])) (failed_of env.cancels (job ∷ [])) m in
      (find_by_id id w'.db ≡ some m')
      × (contains w'.armed job ≡ not (env.cancels job))
      × (contains m'.job_ids job ≡ not (env.cancels job))
unfolding cancel_orphaned_job reconcile_row
orphan_lem env id job w m r e js a =
    let (row, armed) = reconcile_mission_jobs_lem env.cancels id (job ∷ []) w m e refl in
    let cancelled = contains-cancelled_of env.cancels (job ∷ []) job in
    let kept = contains-failed_of env.cancels (job ∷ []) job in
    rw r (
      row,
      ap (λ (x : List ℕ). contains x job) armed
          ∙ ground (
            arith,
            contains-without (cancelled_of env.cancels (job ∷ [])) w.armed job,
            cancelled,
            ==_self job,
          ),
      rw js (
          settle_jobs_lem (cancelled_of env.cancels (job ∷ [])) (failed_of env.cancels (job ∷ []))
            [] job
          ∙ ground (arith, cancelled, kept, ==_self job)),
    )

pub compensate-Undone :
    (env : Environment) (id job : ℕ) (w : World) (m : MissionRow)
    → env.records ≡ true
    → env.stops ≡ true
    → find_by_id id w.db ≡ some m
    → m.status ≡ draft
    → m.job_ids ≡ []
    → contains w.armed job ≡ true
    → Undone env id job (compensate env id job w)
unfolding compensate set_row_status reconcile_row
compensate-Undone env id job w m r s e d js a =
    let (row, armed, recorded) = orphan_lem env id job w m r e js a in
    let (row', armed') = stop_draft_lem env id (cancel_orphaned_job env id job w) _ s row d in
    (_, row', refl, ap (λ (x : List ℕ). contains x job) armed' ∙ armed, recorded)
