-- ===== src/Missions/Store.antt =====
-- packages/core/src/mission/mission-store.ts over the tables `missions` and `mission_journal` of
-- db/src/schema.ts. Rows stand in the order of their `seq`.
use cobble_companion.Base.{
  ℕ, suc, Bool, true, false, ◌&&◌, ◌||◌, not, Option, none, some, List, [], ◌∷◌, ◌++◌, ◌==◌,
  if◌then◌else◌, Text, take, reverse, select_where, update_where, exists_where, find_where, is_some,
}

pub data MissionStatus : Type 0 where
  draft active paused complete stopped failed : MissionStatus

pub record MissionRow : Type 0 where
  pub id : ℕ
  pub companion_id : ℕ
  pub goal : Text
  pub plan : Option Text
  pub validation_criteria : Option Text
  pub status : MissionStatus
  pub job_ids : List ℕ

pub record MissionActivation : Type 0 where
  pub plan : Text
  pub validation_criteria : Text
  pub job_ids : List ℕ

pub record JournalInput : Type 0 where
  pub event : Option Text
  pub findings : Option Text
  pub prediction : Option Text
  pub decision : Option Text

pub record JournalRow : Type 0 where
  pub mission_id : ℕ
  pub entry : JournalInput

pub record Db : Type 0 where
  pub missions : List MissionRow
  pub journal : List JournalRow
  pub next_id : ℕ

-- A statement that the partial unique index refuses throws.
pub data Written : Type 0 where
  wrote : Option MissionRow → Db → Written
  unique_violation : Written

abbrev pub is_draft : MissionStatus → Bool
is_draft draft = true
is_draft _ = false

abbrev pub is_active_status : MissionStatus → Bool
is_active_status active = true
is_active_status _ = false

abbrev pub has_id : ℕ → MissionRow → Bool
has_id id m = m.id == id

-- The rows of the partial unique index.
abbrev pub active_of : ℕ → MissionRow → Bool
active_of companion m = m.companion_id == companion && is_active_status m.status

unfoldable pub draft_row : ℕ → Text → ℕ → MissionRow
draft_row companion goal id = record {
  id = id;
  companion_id = companion;
  goal = goal;
  plan = none;
  validation_criteria = none;
  status = draft;
  job_ids = [];
}

unfoldable pub create : ℕ → Text → Db → MissionRow × Db
unfolding draft_row
create companion goal db =
    let m = draft_row companion goal db.next_id in
    (m, record db { missions = db.missions ++ (m ∷ []); next_id = suc db.next_id })

unfoldable pub find_by_id : ℕ → Db → Option MissionRow
find_by_id id db = find_where (has_id id) db.missions

unfoldable pub find_active : ℕ → Db → Option MissionRow
find_active companion db = find_where (active_of companion) db.missions

unfoldable pub has_active : ℕ → Db → Bool
unfolding find_active
has_active companion db = is_some (find_active companion db)

unfoldable pub is_active : ℕ → Db → Bool
is_active id db = exists_where (λ m. has_id id m && is_active_status m.status) db.missions

unfoldable pub list_by_companion : ℕ → Db → List MissionRow
list_by_companion companion db =
    reverse (select_where (λ m. m.companion_id == companion) db.missions)

unfoldable pub activate_row : MissionActivation → MissionRow → MissionRow
activate_row input m = record m {
  plan = some input.plan;
  validation_criteria = some input.validation_criteria;
  status = active;
  job_ids = input.job_ids;
}

unfoldable pub is_draft_of : ℕ → MissionRow → Bool
is_draft_of id m = has_id id m && is_draft m.status

-- UPDATE … WHERE id AND status = 'draft'. The index refuses a second active row of the companion.
unfoldable pub activate : ℕ → MissionActivation → Db → Written
unfolding activate_row is_draft_of
activate id input db = elim (find_where (is_draft_of id) db.missions) [
  | none ↦ wrote none db
  | some m ↦
      if exists_where (active_of m.companion_id) db.missions
      then unique_violation
      else wrote (some (activate_row input m))
          (record db { missions = update_where (is_draft_of id) (activate_row input) db.missions })
]

unfoldable pub set_row_status : MissionStatus → MissionRow → MissionRow
set_row_status status m = record m { status = status }

-- Whether the index refuses the new status of a row.
unfoldable pub refused : MissionStatus → MissionRow → Db → Bool
refused status m db =
    is_active_status status
    && exists_where (λ o. not (has_id m.id o) && active_of m.companion_id o) db.missions

unfoldable pub set_status : ℕ → MissionStatus → Db → Written
unfolding set_row_status refused
set_status id status db = elim (find_where (has_id id) db.missions) [
  | none ↦ wrote none db
  | some m ↦
      if refused status m db
      then unique_violation
      else wrote (some (set_row_status status m))
          (record db { missions = update_where (has_id id) (set_row_status status) db.missions })
]

abbrev pub contains : List ℕ → ℕ → Bool
contains [] j = false
contains (i ∷ is) j = i == j || contains is j

-- The union of SQL, which keeps each element once.
unfoldable pub add_once : ℕ → List ℕ → List ℕ
add_once j js = if contains js j then js else j ∷ js

unfoldable pub union : List ℕ → List ℕ → List ℕ
union [] ks = ks
union (j ∷ js) ks = add_once j (union js ks)

unfoldable pub without : List ℕ → List ℕ → List ℕ
without cancelled [] = []
without cancelled (j ∷ js) =
    let rest = without cancelled js in if contains cancelled j then rest else j ∷ rest

-- The new `job_ids` from the value at the time of the write.
unfoldable pub settle_jobs : List ℕ → List ℕ → List ℕ → List ℕ
unfolding without union add_once
settle_jobs cancelled failed_ids current = union (without cancelled current) (union failed_ids [])

unfoldable pub reconcile_row : List ℕ → List ℕ → MissionRow → MissionRow
reconcile_row cancelled failed_ids m = record m {
  job_ids = settle_jobs cancelled failed_ids m.job_ids;
}

unfoldable pub reconcile_jobs : ℕ → List ℕ → List ℕ → Db → Option MissionRow × Db
unfolding reconcile_row
reconcile_jobs id cancelled failed_ids db =
    let db' = record db {
      missions = update_where (has_id id) (reconcile_row cancelled failed_ids) db.missions;
    } in
    (find_where (has_id id) db'.missions, db')

unfoldable pub append_journal : ℕ → JournalInput → Db → JournalRow × Db
append_journal mission input db =
    let row : JournalRow = record { mission_id = mission; entry = input } in
    (row, record db { journal = db.journal ++ (row ∷ []) })

unfoldable pub recent_journal : ℕ → ℕ → Db → List JournalRow
recent_journal mission limit db =
    take limit (reverse (select_where (λ r. r.mission_id == mission) db.journal))
