-- ===== src/Missions/Examples.antt =====
-- Tests of the missions on a concrete table, and instances of their theorems.
use cobble_companion.Base.{
  false, ℕ, ◌≡◌, refl, Bool, true, ◌&&◌, not, none, some, List, [], ◌∷◌, ◌==◌, Text, codes,
  count_where, find_where, update_where, exists_where, arith,
}
use cobble_companion.Missions.Store.{
  stopped, MissionRow, MissionActivation, Db, active_of, is_draft_of, find_by_id, draft_row, create,
  activate, activate_row, contains,
}
use cobble_companion.Missions.Service.{
  World, skip, mission_not_active, route_mission_advance, is_mission_terminal,
}
use cobble_companion.Missions.OneActive.{Inv, Statement, creates, activates, run, step, run-Inv}
use cobble_companion.Missions.Reconcile.{jobs_of, route_mission_advance_stale}
use cobble_companion.Missions.Start.{StartMissionArgs, Environment, start_mission}
use cobble_companion.Missions.Starting.{Concluded, start_mission-Concluded}

abbrev no_missions : Db
no_missions = record { missions = []; journal = []; next_id = 0 }

no_missions-Inv : Inv no_missions
unfolding count_where
no_missions-Inv = record {
  one_active = λ c. omega arith;
  one_row = λ id. omega arith;
  fresh = λ id le. refl;
}

abbrev goal : Text
goal = codes "find a flat"

abbrev activation : ℕ → MissionActivation
activation job = record {
  plan = codes "look";
  validation_criteria = codes "done";
  job_ids = job ∷ [];
}

-- Two drafts of one companion, both activated.
abbrev statements : List Statement
statements =
    creates 5 goal ∷ creates 5 goal ∷ activates 0 (activation 8) ∷ activates 1 (activation 9) ∷ []

second_refused : count_where (active_of 5) (run statements no_missions).missions ≡ 1
unfolding run step create draft_row activate activate_row is_draft_of find_where update_where
    exists_where count_where
second_refused = refl

run-Inv_example : Inv (run statements no_missions)
run-Inv_example = run-Inv statements no_missions no_missions-Inv

-- A mission that is over and left two jobs, of which one can be cancelled.
abbrev over : MissionRow
over = record {
  id = 0;
  companion_id = 5;
  goal = goal;
  plan = none;
  validation_criteria = none;
  status = stopped;
  job_ids = 8 ∷ 9 ∷ [];
}

abbrev stale_world : World
stale_world = record { db = record no_missions { missions = over ∷ [] }; armed = 9 ∷ 8 ∷ 3 ∷ [] }

abbrev cancels_8 : ℕ → Bool
cancels_8 j = j == 8

-- The settling write fails.
route_mission_advance_stale_example :
    let (routing, w') = route_mission_advance cancels_8 false 5 0 stale_world in
    (routing ≡ skip mission_not_active)
    × (contains w'.armed 8
        ≡ (contains stale_world.armed 8 && not (contains over.job_ids 8 && cancels_8 8)))
    × (contains (jobs_of (find_by_id 0 w'.db)) 8 ≡ contains over.job_ids 8)
unfolding find_by_id find_where is_mission_terminal
route_mission_advance_stale_example =
    route_mission_advance_stale cancels_8 false 5 0 stale_world over 8 refl refl

abbrev args : StartMissionArgs
args = record {
  goal = goal;
  plan = codes "look";
  validation_criteria = codes "done";
  predicate = codes "p";
  every = codes "1d";
}

abbrev services : Environment
services = record {
  configured = true;
  draft_saved = true;
  arms = some 8;
  others = λ db. db;
  activation_sent = true;
  cancels = cancels_8;
  records = true;
  stops = true;
}

abbrev idle_world : World
idle_world = record { db = no_missions; armed = [] }

start_mission-Concluded_example :
    Concluded services args 0 idle_world (start_mission services (some args) 5 idle_world)
start_mission-Concluded_example =
    start_mission-Concluded services args 5 idle_world no_missions-Inv refl refl (λ db. refl)
