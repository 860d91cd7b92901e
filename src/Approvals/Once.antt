-- ===== src/Approvals/Once.antt =====
-- An approved call runs at most once, whatever confirmations and rejections race.

use cobble_companion.Base.{
  ℕ, ◌+◌, ◌≤◌, ◌≡◌, refl, ap, inl, inr, Bool, some, List, [], ◌∷◌, Option-cases, count_where,
  find_where, update_where, arith,
}
use cobble_companion.Approvals.Store.{
  Db, ProposalRow, approved, rejected, mark_resolved, mark_status, resolvable, resolve,
}
use cobble_companion.Approvals.Confirm.{advance_lead, reject_proposal}
use cobble_companion.Approvals.Race.{
  has_id, approved_of, step, run, times_run, World, Step, Inv, creates, rejects, begins, finishes,
  crashes,
}
use cobble_companion.Approvals.Counts.{
  create-Inv, crash-Inv, same-Inv, finish-Inv, found_resolvable, resolve-approved, not_found,
  resolve-keys,
}

begin-Inv : (companion id now : ℕ) (w : World) → Inv w → Inv (step (begins companion id now) w)
unfolding step mark_resolved
begin-Inv companion id now w v =
    elim (Option-cases (find_where (resolvable companion id) w.db.proposals)) [
      | inl e ↦ rw e (
          same-Inv w _ (not_found companion id (resolve approved now) w.db.proposals e) refl
            (λ i. omega arith) v)
      | inr (m, e) ↦ rw e (record {
        one_row = λ i.
            omega (arith, v.one_row i, resolve-keys approved companion id now i w.db.proposals);
        fresh = λ i le.
            omega (arith, v.fresh i le, resolve-keys approved companion id now i w.db.proposals);
        accounted = λ i. claimed i m e;
      })
    ]
  where
    claimed :
        (i : ℕ) (m : ProposalRow)
        → find_where (resolvable companion id) w.db.proposals ≡ some m
        → times_run i w.db + count_where (has_id i) (resolve approved now m ∷ w.in_flight)
          ≤ count_where
              (approved_of i)
              (update_where (resolvable companion id) (resolve approved now) w.db.proposals)
    claimed i m e =
        unfold count_where resolve in
        ground (
          arith,
          v.accounted i,
          (found_resolvable companion id w.db.proposals m e).0,
          resolve-approved approved companion id now i m w v e,
        )

reject_same :
    (lead_ok : Bool) (companion id now : ℕ) (db : Db)
    → ((reject_proposal lead_ok companion id now db).1.proposals
        ≡ update_where (resolvable companion id) (resolve rejected now) db.proposals)
      × ((reject_proposal lead_ok companion id now db).1.runs ≡ db.runs)
      × ((reject_proposal lead_ok companion id now db).1.next_id ≡ db.next_id)
unfolding reject_proposal mark_resolved advance_lead mark_status
reject_same lead_ok companion id now db = (ground arith, ground arith, ground arith)

reject-approved :
    (companion id now i : ℕ) (w : World)
    → Inv w
    → count_where
        (approved_of i)
        (update_where (resolvable companion id) (resolve rejected now) w.db.proposals)
      ≡ count_where (approved_of i) w.db.proposals
reject-approved companion id now i w v =
    elim (Option-cases (find_where (resolvable companion id) w.db.proposals)) [
      | inl e ↦
          ap (count_where (approved_of i))
            (not_found companion id (resolve rejected now) w.db.proposals e)
      | inr (m, e) ↦ ground (arith, resolve-approved rejected companion id now i m w v e)
    ]

reject-Inv :
    (lead_ok : Bool) (companion id now : ℕ) (w : World)
    → Inv w
    → Inv (step (rejects lead_ok companion id now) w)
unfolding step
reject-Inv lead_ok companion id now w v =
    let (ps, rs, ns) = reject_same lead_ok companion id now w.db in
    record {
      one_row = λ i.
          rw ps
            (omega (arith, v.one_row i, resolve-keys rejected companion id now i w.db.proposals));
      fresh = λ i le. rw ps (
          omega (
            arith,
            v.fresh i (rw ns at le),
            resolve-keys rejected companion id now i w.db.proposals,
          ));
      accounted = λ i. rw ps (rw rs (rw (reject-approved companion id now i w v) (v.accounted i)));
    }

step-Inv : (s : Step) (w : World) → Inv w → Inv (step s w)
step-Inv (creates companion input) w v = create-Inv companion input w v
step-Inv (rejects lead_ok companion id now) w v = reject-Inv lead_ok companion id now w v
step-Inv (begins companion id now) w v = begin-Inv companion id now w v
step-Inv (finishes tools writes id) w v = finish-Inv tools writes id w v
step-Inv (crashes id) w v = crash-Inv id w v

steps-Inv : (ss : List Step) (w : World) → Inv w → Inv (run ss w)
unfolding run
steps-Inv [] w v = v
steps-Inv (s ∷ ss) w v = steps-Inv ss (step s w) (step-Inv s w v)

approved_le :
    (id : ℕ) (rows : List ProposalRow)
    → count_where (approved_of id) rows ≤ count_where (has_id id) rows
unfolding count_where
approved_le id [] = omega arith
approved_le id (r ∷ rows) = ground (arith, approved_le id rows)

-- However confirmations, rejections and crashes of the nodes interleave, from a world that meets the
-- invariant: the tool of a proposal is run at most once, and never unless its row is approved.
pub approved_runs_once :
    (ss : List Step) (w : World) (id : ℕ)
    → Inv w
    → (times_run id (run ss w).db ≤ 1)
      × (times_run id (run ss w).db ≤ count_where (approved_of id) (run ss w).db.proposals)
approved_runs_once ss w id v =
    let after = steps-Inv ss w v in
    (
      omega (arith, after.accounted id, after.one_row id, approved_le id (run ss w).db.proposals),
      omega (arith, after.accounted id),
    )
