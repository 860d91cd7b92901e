-- ===== src/Approvals/Race.antt =====
-- Confirmations, rejections and crashes of the nodes, one statement at a time.

use cobble_companion.Base.{
  ℕ, ◌+◌, ◌≤◌, ◌≡◌, Bool, true, false, ◌&&◌, Option, none, some, List, [], ◌∷◌, ◌==◌, if◌then◌else◌,
  count_where, find_where,
}
use cobble_companion.Approvals.Tools.{Tool}
use cobble_companion.Approvals.Store.{
  Db, ProposalRow, ProposalStatus, approved, CreateProposalInput, create, mark_resolved,
}
use cobble_companion.Approvals.Confirm.{Writes, execute, reject_proposal}

-- The tables, and the confirmations that hold a proposal and have not run its tool yet.
pub record World : Type 0 where
  pub db : Db
  pub in_flight : List ProposalRow

pub data Step : Type 0 where
  creates : ℕ → CreateProposalInput → Step
  rejects : Bool → ℕ → ℕ → ℕ → Step
  -- The first half of a confirmation, the second half of one that holds the proposal, and the end of
  -- the node that was to run it.
  begins : ℕ → ℕ → ℕ → Step
  finishes : List Tool → Writes → ℕ → Step
  crashes : ℕ → Step

abbrev pub has_id : ℕ → ProposalRow → Bool
has_id id p = p.id == id

abbrev pub is_approved : ProposalStatus → Bool
is_approved approved = true
is_approved _ = false

abbrev pub approved_of : ℕ → ProposalRow → Bool
approved_of id p = p.id == id && is_approved p.status

unfoldable pub remove_first : ℕ → List ProposalRow → List ProposalRow
remove_first id [] = []
remove_first id (p ∷ ps) = let rest = remove_first id ps in if p.id == id then ps else p ∷ rest

abbrev pub add_claimed : Option ProposalRow → List ProposalRow → List ProposalRow
add_claimed none ps = ps
add_claimed (some p) ps = p ∷ ps

unfoldable pub step : Step → World → World
step (creates companion input) w = record w { db = (create companion input w.db).1 }
step (rejects lead_ok companion id now) w = record w {
  db = (reject_proposal lead_ok companion id now w.db).1;
}
step (begins companion id now) w =
    let (claimed, db') = mark_resolved companion id approved now w.db in
    record { db = db'; in_flight = add_claimed claimed w.in_flight }
step (finishes tools writes id) w = elim (find_where (has_id id) w.in_flight) [
  | none ↦ w
  | some p ↦ record {
    db = (execute tools writes p.companion_id p w.db).1;
    in_flight = remove_first id w.in_flight;
  }
]
step (crashes id) w = record w { in_flight = remove_first id w.in_flight }

unfoldable pub run : List Step → World → World
run [] w = w
run (s ∷ ss) w = run ss (step s w)

-- How often the tool of a proposal has been run.
abbrev pub times_run : ℕ → Db → ℕ
times_run id db = count_where (λ r. r == id) db.runs

pub record Inv (w : World) : Type 0 where
  pub one_row : (id : ℕ) → count_where (has_id id) w.db.proposals ≤ 1
  pub fresh : (id : ℕ) → w.db.next_id ≤ id → count_where (has_id id) w.db.proposals ≡ 0
  pub accounted :
      (id : ℕ)
      → times_run id w.db + count_where (has_id id) w.in_flight
        ≤ count_where (approved_of id) w.db.proposals
