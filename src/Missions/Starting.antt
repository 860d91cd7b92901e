-- ===== src/Missions/Starting.antt =====
-- A start either leaves an active mission with its wake job, or undoes what it did.
use cobble_companion.Base.{
  ℕ, ◌≡◌, ◌≢◌, ◌⊎◌, refl, subst, ◌∙◌, inl, inr, Bool, true, false, not, some, List, [], ◌∷◌, ◌++◌,
  if◌then◌else◌, Text, Bool-cases, Option-cases, find_where, exists_where, count_where, arith,
  ==_self, some_inj,
}
use cobble_companion.Missions.Store.{
  draft, stopped, MissionRow, Db, has_id, active_of, is_draft_of, find_by_id, has_active, draft_row,
  create, activate, activate_row, set_row_status, contains,
}
use cobble_companion.Missions.Service.{World}
use cobble_companion.Missions.OneActive.{Inv}
use native.Mathlib.Nat.{le_refl}
use cobble_companion.Missions.Start.{
  StartMissionArgs, Environment, StartResult, started, already_active, not_configured, draft_failed,
  activated, activation_of, activate_mission, arm_and_activate, start_mission,
}
use cobble_companion.Missions.Compensating.{
  stop_draft_lem, find_draft, find_activated, Running, Undone, compensate-Undone,
}

-- How a start ends once its wake job is armed.
abbrev pub Ended : Environment → StartMissionArgs → ℕ → ℕ → StartResult × World → Type 0
Ended env args id job (result, w) =
    ((result ≡ started) × Running args id job w) ⊎ ((result ≢ started) × Undone env id job w)

activate_mission-Ended :
    (env : Environment) (args : StartMissionArgs) (id job : ℕ) (w : World) (m : MissionRow)
    → env.records ≡ true
    → env.stops ≡ true
    → find_by_id id w.db ≡ some m
    → m.status ≡ draft
    → m.job_ids ≡ []
    → contains w.armed job ≡ true
    → Ended env args id job (activate_mission env args id job w)
unfolding activate_mission activate find_by_id
activate_mission-Ended env args id job w m r s e d js a = elim (Bool-cases env.activation_sent) [
  | inr lost ↦ rw lost (inr (cc, compensate-Undone env id job w m r s e d js a))
  | inl sent ↦ rw sent (written (find_draft id w.db.missions m e d))
]
  where
    written :
        find_where (is_draft_of id) w.db.missions ≡ some m
        → Ended env args id job (activated env id job w (activate id (activation_of args job) w.db))
    written f = elim (Bool-cases (exists_where (active_of m.companion_id) w.db.missions)) [
      | inl x ↦
          unfold activated in
          rw (f, activate) (rw x (inr (cc, compensate-Undone env id job w m r s e d js a)))
      | inr x ↦
          unfold activated activation_of activate_row in
          rw (f, activate)
            (rw x (
              inl (
                refl,
                (
                  _,
                  find_activated id (activation_of args job) w.db.missions m e d,
                  refl,
                  refl,
                  refl,
                  a,
                ),
              )))
    ]

found_last :
    (id : ℕ) (rows : List MissionRow) (m : MissionRow)
    → count_where (has_id id) rows ≡ 0
    → has_id id m ≡ true
    → find_where (has_id id) (rows ++ (m ∷ [])) ≡ some m
unfolding find_where count_where
found_last id [] m none_yet is = ground arith
found_last id (r ∷ rows) m none_yet is = ground (arith, found_last id rows m)

-- What a start leaves, when it was not refused before a draft was written.
abbrev pub Concluded : Environment → StartMissionArgs → ℕ → World → StartResult × World → Type 0
Concluded env args id w (result, w') =
    ((job : ℕ) × (env.arms ≡ some job) × (result ≡ started) × Running args id job w')
    ⊎ ((result ≢ started) × (w' ≡ w))
    ⊎ ((result ≢ started)
        × (m : MissionRow) × (find_by_id id w'.db ≡ some m)
        × (m.status ≡ stopped)
        × ((job : ℕ)
            → env.arms ≡ some job
            → (contains w'.armed job ≡ not (env.cancels job))
              × (contains m.job_ids job ≡ not (env.cancels job))))

arm_and_activate-Concluded :
    (env : Environment) (args : StartMissionArgs) (id : ℕ) (w w₀ : World) (m : MissionRow)
    → env.records ≡ true
    → env.stops ≡ true
    → ((db : Db) → find_by_id id (env.others db) ≡ find_by_id id db)
    → find_by_id id w.db ≡ some m
    → m.status ≡ draft
    → m.job_ids ≡ []
    → Concluded env args id w₀ (arm_and_activate env args id w)
unfolding arm_and_activate set_row_status
arm_and_activate-Concluded env args id w w₀ m r s keep e d js = elim (Option-cases env.arms) [
  | inl unarmed ↦
      rw unarmed
        (inr (inr (cc, _, (stop_draft_lem env id w m s e d).0, refl, λ job armed. ground arith)))
  | inr (job, armed) ↦
      let w' : World = record { db = env.others w.db; armed = job ∷ w.armed } in
      elim (activate_mission-Ended env args id job w' m r s (keep w.db ∙ e) d js
        (ground (arith, ==_self job))) [
          | inl (is, runs) ↦ rw armed (inl (job, refl, is, runs))
          | inr (not_started, (m', found, over, disarmed, recorded)) ↦ rw armed (
              inr (
                inr (
                  not_started,
                  m',
                  found,
                  over,
                  λ job' same.
                      subst
                        (λ j.
                          (contains (activate_mission env args id job w').1.armed j
                            ≡ not (env.cancels j))
                          × (contains m'.job_ids j ≡ not (env.cancels j)))
                        (some_inj same) (disarmed, recorded),
                )))
        ]
]

either {ℓ ℓ'} :
    {A : Type ℓ} → (P : A → Type ℓ') (b : Bool) {x y : A} → P x → P y → P (if b then x else y)
either P true px py = px
either P false px py = py

created_draft :
    (companion : ℕ) (goal : Text) (db : Db)
    → Inv db
    → find_by_id db.next_id (create companion goal db).1
      ≡ some (draft_row companion goal db.next_id)
unfolding find_by_id create draft_row
created_draft companion goal db v =
    found_last db.next_id db.missions _ (v.fresh db.next_id (le_refl _)) (==_self db.next_id)

-- A confirmed start, where the other nodes leave the new draft alone and the settling and stopping
-- writes succeed, ends in one of three ways. It reports a start, and the mission is active with the
-- plan of the arguments and with an armed wake job, the only one that it has recorded. Or it reports
-- a failure and nothing has changed. Or it reports a failure, the draft is stopped, and a wake job
-- that was armed is disarmed and not recorded where its cancellation succeeds, and armed and recorded
-- where it fails.
pub start_mission-Concluded :
    (env : Environment) (args : StartMissionArgs) (companion : ℕ) (w : World)
    → Inv w.db
    → env.records ≡ true
    → env.stops ≡ true
    → ((db : Db) → find_by_id w.db.next_id (env.others db) ≡ find_by_id w.db.next_id db)
    → Concluded env args w.db.next_id w (start_mission env (some args) companion w)
unfolding start_mission create draft_row
start_mission-Concluded env args companion w v r s keep =
    either End (has_active companion w.db) {x = (already_active, w)} (inr (inl (cc, refl))) (
      either End env.configured {y = (not_configured, w)}
        (either End env.draft_saved {y = (draft_failed, w)}
          (arm_and_activate-Concluded env args w.db.next_id drafted w _ r s keep
            (created_draft companion args.goal w.db v) refl refl)
          (inr (inl (cc, refl))))
        (inr (inl (cc, refl))))
  where
    drafted : World
    drafted = record w { db = (create companion args.goal w.db).1 }

    End : StartResult × World → Type 0
    End = Concluded env args w.db.next_id w
