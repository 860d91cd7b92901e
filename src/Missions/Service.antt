-- ===== src/Missions/Service.antt =====
-- packages/core/src/mission/mission-service.ts and mission-reconcile.ts. The scheduler is a service
-- that the code only calls: `armed` holds the ids of the wake jobs that it still fires, and which
-- cancellations succeed is given by `cancels`.
use cobble_companion.Base.{
  ℕ, Bool, true, false, ◌&&◌, not, none, some, List, [], ◌∷◌, ◌==◌, if◌then◌else◌,
}
use cobble_companion.Missions.Store.{
  MissionStatus, draft, active, paused, complete, stopped, failed, MissionRow, Db, Written, wrote,
  is_active_status, find_by_id, set_status, reconcile_jobs, without,
}

unfoldable pub is_mission_terminal : MissionStatus → Bool
is_mission_terminal draft = false
is_mission_terminal active = false
is_mission_terminal paused = false
is_mission_terminal complete = true
is_mission_terminal stopped = true
is_mission_terminal failed = true

-- The lookup and the write follow on one another.
unfoldable pub stop : ℕ → Db → Written
unfolding is_mission_terminal
stop id db = elim (find_by_id id db) [
  | none ↦ wrote none db
  | some m ↦ if is_mission_terminal m.status then wrote none db else set_status id stopped db
]

pub record World : Type 0 where
  pub db : Db
  pub armed : List ℕ

-- The two lists of the cancel loop: cancelled and failed.
unfoldable pub cancelled_of : (ℕ → Bool) → List ℕ → List ℕ
cancelled_of cancels [] = []
cancelled_of cancels (j ∷ js) =
    let rest = cancelled_of cancels js in if cancels j then j ∷ rest else rest

unfoldable pub failed_of : (ℕ → Bool) → List ℕ → List ℕ
failed_of cancels [] = []
failed_of cancels (j ∷ js) = let rest = failed_of cancels js in if cancels j then rest else j ∷ rest

abbrev pub is_nil : List ℕ → Bool
is_nil [] = true
is_nil (j ∷ js) = false

-- Cancel, then settle the list; `records` says whether the settling write succeeds.
unfoldable pub reconcile_mission_jobs : (ℕ → Bool) → Bool → ℕ → List ℕ → World → List ℕ × World
unfolding cancelled_of failed_of
reconcile_mission_jobs cancels records mission jobs w =
    let cancelled = cancelled_of cancels jobs in
    let failed_ids = failed_of cancels jobs in
    let armed' = without cancelled w.armed in
    (
      failed_ids,
      if records && not (is_nil cancelled && is_nil failed_ids)
          then record { db = (reconcile_jobs mission cancelled failed_ids w.db).1; armed = armed' }
          else record w { armed = armed' },
    )

pub data SkipReason : Type 0 where
  unknown_mission mission_not_active : SkipReason

pub data AdvanceRouting : Type 0 where
  advance : MissionRow → AdvanceRouting
  skip : SkipReason → AdvanceRouting

unfoldable pub route_mission_advance : (ℕ → Bool) → Bool → ℕ → ℕ → World → AdvanceRouting × World
unfolding reconcile_mission_jobs is_mission_terminal
route_mission_advance cancels records companion id w = elim (find_by_id id w.db) [
  | none ↦ (skip unknown_mission, w)
  | some m ↦
      if m.companion_id == companion
      then (if is_active_status m.status then (advance m, w) else (
        skip mission_not_active,
        if is_mission_terminal m.status && not (is_nil m.job_ids)
            then (reconcile_mission_jobs cancels records m.id m.job_ids w).1
            else w,
      ))
      else (skip unknown_mission, w)
]
