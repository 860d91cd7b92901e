-- ===== src/Approvals/Counts.antt =====
-- How the statements of the approvals change what is counted.
use native.Mathlib.Nat.{le_trans}
use cobble_companion.Base.{
  ℕ, ◌+◌, ◌≤◌, ◌≡◌, refl, inl, inr, ◌&&◌, none, some, List, [], ◌∷◌, ◌==◌, if◌then◌else◌,
  Option-cases, count_where, find_where, update_where, count_where-snoc,
  count_where-update_where-one, count_where-update_where-le, arith,
}
use cobble_companion.Approvals.Tools.{Tool}
use cobble_companion.Approvals.Store.{
  Db, ProposalRow, ProposalStatus, pending, CreateProposalInput, create, new_proposal, mark_status,
  resolvable, resolve, log_tool_call, record_procedure,
}
use cobble_companion.Approvals.Confirm.{Writes, advance_lead, learn, book, execute}
use cobble_companion.Approvals.Race.{
  has_id, is_approved, approved_of, remove_first, step, times_run, World, Inv, creates, finishes,
  crashes,
}

pub create-Inv :
    (companion : ℕ) (input : CreateProposalInput) (w : World)
    → Inv w
    → Inv (step (creates companion input) w)
unfolding step create new_proposal
create-Inv companion input w v = record {
  one_row = λ id. ground (
    arith,
    count_where-snoc (has_id id) w.db.proposals (new_proposal companion input w.db.next_id),
    v.one_row id,
    v.fresh w.db.next_id,
  );
  fresh = λ id le. ground (
    arith,
    count_where-snoc (has_id id) w.db.proposals (new_proposal companion input w.db.next_id),
    v.fresh id,
  );
  accounted = λ id. ground (
    arith,
    count_where-snoc (approved_of id) w.db.proposals (new_proposal companion input w.db.next_id),
    v.accounted id,
  );
}

pub remove_first-le :
    (id i : ℕ) (ps : List ProposalRow)
    → count_where (has_id i) (remove_first id ps) ≤ count_where (has_id i) ps
unfolding remove_first count_where
remove_first-le id i [] = omega arith
remove_first-le id i (p ∷ ps) = ground (arith, remove_first-le id i ps)

pub remove_first-found :
    (id i : ℕ) (ps : List ProposalRow) (p : ProposalRow)
    → find_where (has_id id) ps ≡ some p
    → count_where (has_id i) (remove_first id ps) + (if p.id == i then 1 else 0)
      ≡ count_where (has_id i) ps
unfolding remove_first count_where find_where
remove_first-found id i [] p e = cc
remove_first-found id i (q ∷ ps) p e = ground (arith, remove_first-found id i ps p)

pub book_same :
    (writes : Writes) (p : ProposalRow) (companion : ℕ) (tools : List Tool) (db : Db)
    → ((execute tools writes companion p db).1.runs ≡ p.id ∷ db.runs)
      × ((execute tools writes companion p db).1.proposals ≡ db.proposals)
      × ((execute tools writes companion p db).1.next_id ≡ db.next_id)
unfolding execute book learn advance_lead mark_status log_tool_call record_procedure
book_same writes p companion tools db = (ground arith, ground arith, ground arith)

pub crash-Inv : (id : ℕ) (w : World) → Inv w → Inv (step (crashes id) w)
unfolding step
crash-Inv id w v = record {
  one_row = v.one_row;
  fresh = v.fresh;
  accounted = λ i. omega (arith, v.accounted i, remove_first-le id i w.in_flight);
}

-- A statement that leaves the proposals as they are, with what it does to the runs and to those in
-- flight.
pub same-Inv :
    (w w' : World)
    → w'.db.proposals ≡ w.db.proposals
    → w'.db.next_id ≡ w.db.next_id
    → ((id : ℕ)
        → times_run id w'.db + count_where (has_id id) w'.in_flight
          ≤ times_run id w.db + count_where (has_id id) w.in_flight)
    → Inv w
    → Inv w'
same-Inv w w' ps ns fewer v = record {
  one_row = λ id. rw ps (v.one_row id);
  fresh = λ id le. rw ps (v.fresh id (rw ns at le));
  accounted = λ id. rw ps (le_trans (fewer id) (v.accounted id));
}

pub finish-Inv :
    (tools : List Tool) (writes : Writes) (id : ℕ) (w : World)
    → Inv w
    → Inv (step (finishes tools writes id) w)
unfolding step
finish-Inv tools writes id w v = elim (Option-cases (find_where (has_id id) w.in_flight)) [
  | inl e ↦ rw (e, step) v
  | inr (p, e) ↦
      let (ran, ps, ns) = book_same writes p p.companion_id tools w.db in
      rw (e, step)
        (same-Inv w
          (record {
            db = (execute tools writes p.companion_id p w.db).1;
            in_flight = remove_first id w.in_flight;
          })
          ps ns (λ i. counted i p ran e) v)
]
  where
    counted :
        (i : ℕ) (p : ProposalRow)
        → (execute tools writes p.companion_id p w.db).1.runs ≡ p.id ∷ w.db.runs
        → find_where (has_id id) w.in_flight ≡ some p
        → times_run i (execute tools writes p.companion_id p w.db).1
            + count_where (has_id i) (remove_first id w.in_flight)
          ≤ times_run i w.db + count_where (has_id i) w.in_flight
    counted i p ran e =
        unfold count_where in rw ran (omega (arith, remove_first-found id i w.in_flight p e))

pub resolvable_le :
    (companion id : ℕ) (rows : List ProposalRow)
    → count_where (resolvable companion id) rows ≤ count_where (has_id id) rows
unfolding count_where resolvable
resolvable_le companion id [] = omega arith
resolvable_le companion id (r ∷ rows) = ground (arith, resolvable_le companion id rows)

pub found_resolvable :
    (companion id : ℕ) (rows : List ProposalRow) (m : ProposalRow)
    → find_where (resolvable companion id) rows ≡ some m
    → (m.id ≡ id) × (m.status ≡ pending)
unfolding find_where resolvable
found_resolvable companion id [] m e = cc
found_resolvable companion id (r ∷ rows) m e = ground (arith, found_resolvable companion id rows m)

-- Resolving a proposal, and what it does to the counts.
pub resolve-approved :
    (status : ProposalStatus) (companion id now i : ℕ) (m : ProposalRow) (w : World)
    → Inv w
    → find_where (resolvable companion id) w.db.proposals ≡ some m
    → count_where
        (approved_of i)
        (update_where (resolvable companion id) (resolve status now) w.db.proposals)
      ≡ count_where (approved_of i) w.db.proposals
        + (if id == i && is_approved status then 1 else 0)
unfolding resolve
resolve-approved status companion id now i m w v e =
    let (is, was) = found_resolvable companion id w.db.proposals m e in
    ground (
      arith,
      count_where-update_where-one (approved_of i) (resolvable companion id) (resolve status now) m
          w.db.proposals (le_trans (resolvable_le companion id w.db.proposals) (v.one_row id)) e,
    )

pub not_found :
    (companion id : ℕ) (f : ProposalRow → ProposalRow) (rows : List ProposalRow)
    → find_where (resolvable companion id) rows ≡ none
    → update_where (resolvable companion id) f rows ≡ rows
unfolding find_where update_where
not_found companion id f [] e = refl
not_found companion id f (r ∷ rows) e = ground (arith, not_found companion id f rows)

-- The keys stay, whatever is resolved.
pub resolve-keys :
    (status : ProposalStatus) (companion id now i : ℕ) (rows : List ProposalRow)
    → count_where (has_id i) (update_where (resolvable companion id) (resolve status now) rows)
      ≤ count_where (has_id i) rows
unfolding resolve
resolve-keys status companion id now i rows =
    count_where-update_where-le (has_id i) (resolvable companion id) (resolve status now)
      (λ m a h. h) rows
