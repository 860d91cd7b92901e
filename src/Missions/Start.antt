-- ===== src/Missions/Start.antt =====
-- packages/core/src/mission/start-mission-tool.ts: the confirmed start of a mission, with its
-- compensations. What the services answer is given by an environment.
use cobble_companion.Base.{ℕ, Bool, Option, none, some, [], ◌∷◌, if◌then◌else◌, Text}
use cobble_companion.Missions.Store.{
  Db, MissionActivation, Written, wrote, unique_violation, create, activate, has_active,
}
use cobble_companion.Missions.Service.{World, stop, reconcile_mission_jobs}

pub record StartMissionArgs : Type 0 where
  pub goal : Text
  pub plan : Text
  pub validation_criteria : Text
  pub predicate : Text
  pub every : Text

pub record Environment : Type 0 where
  -- The wake has a channel and a bot.
  pub configured : Bool
  -- The insert of the draft succeeds.
  pub draft_saved : Bool
  -- The id of the wake job, or the failure to arm one.
  pub arms : Option ℕ
  -- What the other nodes write between the draft and the activation.
  pub others : Db → Db
  -- The activation is not lost to a failure of the database.
  pub activation_sent : Bool
  -- Which cancellations succeed, and whether the settling and the stopping writes do.
  pub cancels : ℕ → Bool
  pub records : Bool
  pub stops : Bool

pub data StartResult : Type 0 where
  started : StartResult
  bad_args already_active not_configured : StartResult
  draft_failed arm_failed not_activated activate_failed : StartResult

unfoldable pub saved : Db → Written → Db
saved db (wrote row db') = db'
saved db unique_violation = db

-- Stop a draft that will never activate.
unfoldable pub stop_draft : Environment → ℕ → World → World
unfolding saved
stop_draft env id w = if env.stops then record w { db = saved w.db (stop id w.db) } else w

unfoldable pub cancel_orphaned_job : Environment → ℕ → ℕ → World → World
cancel_orphaned_job env id job w =
    (reconcile_mission_jobs env.cancels env.records id (job ∷ []) w).1

unfoldable pub compensate : Environment → ℕ → ℕ → World → World
unfolding stop_draft cancel_orphaned_job
compensate env id job w = stop_draft env id (cancel_orphaned_job env id job w)

-- The answer of the activation.
unfoldable pub activated : Environment → ℕ → ℕ → World → Written → StartResult × World
unfolding compensate
activated env id job w (wrote (some m) db') = (started, record w { db = db' })
activated env id job w (wrote none db') =
    (not_activated, compensate env id job (record w { db = db' }))
activated env id job w unique_violation = (activate_failed, compensate env id job w)

unfoldable pub activation_of : StartMissionArgs → ℕ → MissionActivation
activation_of args job = record {
  plan = args.plan;
  validation_criteria = args.validation_criteria;
  job_ids = job ∷ [];
}

unfoldable pub activate_mission :
    Environment → StartMissionArgs → ℕ → ℕ → World → StartResult × World
unfolding activated activation_of compensate
activate_mission env args id job w =
    if env.activation_sent
    then activated env id job w (activate id (activation_of args job) w.db)
    else (activate_failed, compensate env id job w)

unfoldable pub arm_and_activate : Environment → StartMissionArgs → ℕ → World → StartResult × World
unfolding activate_mission stop_draft
arm_and_activate env args id w = elim env.arms [
  | none ↦ (arm_failed, stop_draft env id w)
  | some job ↦
      activate_mission env args id job (record { db = env.others w.db; armed = job ∷ w.armed })
]

unfoldable pub start_mission :
    Environment → Option StartMissionArgs → ℕ → World → StartResult × World
unfolding arm_and_activate
start_mission env none companion w = (bad_args, w)
start_mission env (some args) companion w =
    if has_active companion w.db
    then (already_active, w)
    else if env.configured
    then (if env.draft_saved
        then (let (draft, db') = create companion args.goal w.db in
            arm_and_activate env args draft.id (record w { db = db' }))
        else (draft_failed, w))
    else (not_configured, w)
