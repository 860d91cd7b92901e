-- ===== src/Missions/OneActive.antt =====
-- At most one active mission for each companion, whatever statements the nodes issue.
use native.Mathlib.Nat.{le_trans}
use cobble_companion.Base.{
  ℕ, suc, ◌≤◌, ◌≡◌, refl, subst, count_where-snoc, inl, inr, Bool, true, false, ◌&&◌, not, some,
  List, [], ◌∷◌, ◌++◌, ◌==◌, Text, Bool-cases, Option-cases, count_where, find_where, exists_where,
  update_where, arith, count_where-eq_zero, count_where-update_where-one, count_where-one,
  count_where-update_where-le, ==_iff,
}
use cobble_companion.Missions.Store.{
  MissionStatus, MissionRow, MissionActivation, JournalInput, Db, Written, wrote, unique_violation,
  is_draft, is_active_status, has_id, active_of, is_draft_of, create, activate, activate_row,
  draft_row, set_status, set_row_status, refused, reconcile_jobs, reconcile_row, append_journal,
}

-- The keys of the table: one row for each id, and none for an id still to come.
pub record Inv (db : Db) : Type 0 where
  pub one_active : (c : ℕ) → count_where (active_of c) db.missions ≤ 1
  pub one_row : (id : ℕ) → count_where (has_id id) db.missions ≤ 1
  pub fresh : (id : ℕ) → db.next_id ≤ id → count_where (has_id id) db.missions ≡ 0

-- A statement of some node.
pub data Statement : Type 0 where
  creates : ℕ → Text → Statement
  activates : ℕ → MissionActivation → Statement
  sets_status : ℕ → MissionStatus → Statement
  reconciles : ℕ → List ℕ → List ℕ → Statement
  journals : ℕ → JournalInput → Statement

-- A statement that throws changes nothing.
abbrev pub after_write : Db → Written → Db
after_write db (wrote row db') = db'
after_write db unique_violation = db

unfoldable pub step : Statement → Db → Db
step (creates companion goal) db = (create companion goal db).1
step (activates id input) db = after_write db (activate id input db)
step (sets_status id status) db = after_write db (set_status id status db)
step (reconciles id cancelled failed_ids) db = (reconcile_jobs id cancelled failed_ids db).1
step (journals mission input) db = (append_journal mission input db).1

unfoldable pub run : List Statement → Db → Db
run [] db = db
run (s ∷ ss) db = run ss (step s db)

create-Inv : (companion : ℕ) (goal : Text) (db : Db) → Inv db → Inv (create companion goal db).1
unfolding create
create-Inv companion goal db v = record {
  one_active = λ c. active_snoc c;
  one_row = λ id. row_snoc id;
  fresh = λ id le. fresh_snoc id le;
}
  where
    m : MissionRow
    m = draft_row companion goal db.next_id

    active_snoc : (c : ℕ) → count_where (active_of c) (db.missions ++ (m ∷ [])) ≤ 1
    active_snoc c =
        unfold draft_row in
        ground (arith, count_where-snoc (active_of c) db.missions m, v.one_active c)

    row_snoc : (id : ℕ) → count_where (has_id id) (db.missions ++ (m ∷ [])) ≤ 1
    row_snoc id =
        unfold draft_row in
        ground (arith, count_where-snoc (has_id id) db.missions m, v.one_row id, v.fresh db.next_id)

    fresh_snoc :
        (id : ℕ) → suc db.next_id ≤ id → count_where (has_id id) (db.missions ++ (m ∷ [])) ≡ 0
    fresh_snoc id le =
        unfold draft_row in ground (arith, count_where-snoc (has_id id) db.missions m, v.fresh id)

-- A statement that keeps the ids of the rows keeps the keys.
update-Inv :
    (p : MissionRow → Bool) (f : MissionRow → MissionRow) (db : Db)
    → ((m : MissionRow) → (f m).id ≡ m.id)
    → Inv db
    → ((c : ℕ) → count_where (active_of c) (update_where p f db.missions) ≤ 1)
    → Inv (record db { missions = update_where p f db.missions })
update-Inv p f db same v one = record { one_active = one; one_row = one_each; fresh = still_fresh }
  where
    fewer :
        (id : ℕ)
        → count_where (has_id id) (update_where p f db.missions)
          ≤ count_where (has_id id) db.missions
    fewer id =
        count_where-update_where-le (has_id id) p f
          (λ m a h. subst (λ x. (x == id) ≡ true) (same m) h) db.missions

    one_each : (id : ℕ) → count_where (has_id id) (update_where p f db.missions) ≤ 1
    one_each id = omega (arith, fewer id, v.one_row id)

    still_fresh :
        (id : ℕ) → db.next_id ≤ id → count_where (has_id id) (update_where p f db.missions) ≡ 0
    still_fresh id le = omega (arith, fewer id, v.fresh id le)

drafts_le :
    (id : ℕ) (rows : List MissionRow)
    → count_where (is_draft_of id) rows ≤ count_where (has_id id) rows
unfolding count_where is_draft_of
drafts_le id [] = omega arith
drafts_le id (m ∷ rows) = ground (arith, drafts_le id rows)

found_draft :
    (id : ℕ) (rows : List MissionRow) (m : MissionRow)
    → find_where (is_draft_of id) rows ≡ some m
    → is_draft m.status ≡ true
unfolding find_where is_draft_of
found_draft id [] m e = cc
found_draft id (r ∷ rows) m e = ground (arith, found_draft id rows m)

-- The activated row is the only active one of its companion.
one_more :
    (id : ℕ) (input : MissionActivation) (m : MissionRow) (db : Db)
    → Inv db
    → find_where (is_draft_of id) db.missions ≡ some m
    → exists_where (active_of m.companion_id) db.missions ≡ false
    → (c : ℕ)
    → count_where (active_of c) (update_where (is_draft_of id) (activate_row input) db.missions) ≤ 1
unfolding activate_row
one_more id input m db v e x c = ground (
  arith,
  v.one_active c,
  count_where-eq_zero (active_of m.companion_id) db.missions x,
  found_draft id db.missions m e,
  count_where-update_where-one (active_of c) (is_draft_of id) (activate_row input) m db.missions
      (le_trans (drafts_le id db.missions) (v.one_row id)) e,
)

activate-Inv :
    (id : ℕ) (input : MissionActivation) (db : Db)
    → Inv db
    → Inv (after_write db (activate id input db))
unfolding activate
activate-Inv id input db v = elim (Option-cases (find_where (is_draft_of id) db.missions)) [
  | inl e ↦ rw (e, activate) v
  | inr (m, e) ↦ elim (Bool-cases (exists_where (active_of m.companion_id) db.missions)) [
    | inl x ↦ rw (e, activate) (rw x v)
    | inr x ↦
        rw (e, activate)
          (rw x (
            update-Inv (is_draft_of id) (activate_row input) db (λ r. refl) v
              (λ c. one_more id input m db v e x c)))
  ]
]

found_id :
    (id : ℕ) (rows : List MissionRow) (m : MissionRow)
    → find_where (has_id id) rows ≡ some m
    → m.id ≡ id
unfolding find_where
found_id id [] m e = cc
found_id id (r ∷ rows) m e = ground (arith, found_id id rows m)

others_quiet :
    (id c : ℕ) (m : MissionRow) (db : Db)
    → m.id ≡ id
    → m.companion_id ≡ c
    → exists_where (λ o. not (has_id m.id o) && active_of m.companion_id o) db.missions ≡ false
    → exists_where (λ o. not (has_id id o) && active_of c o) db.missions ≡ false
others_quiet id c m db i j h =
    subst (λ x. exists_where (λ o. not (has_id id o) && active_of x o) db.missions ≡ false) j
      (subst
        (λ x.
          exists_where (λ o. not (has_id x o) && active_of m.companion_id o) db.missions ≡ false)
        i h)

still_one :
    (id : ℕ) (status : MissionStatus) (m : MissionRow) (db : Db)
    → Inv db
    → find_where (has_id id) db.missions ≡ some m
    → refused status m db ≡ false
    → (c : ℕ)
    → count_where (active_of c) (update_where (has_id id) (set_row_status status) db.missions) ≤ 1
unfolding set_row_status refused
still_one id status m db v e x c =
    let counted =
      count_where-update_where-one (active_of c) (has_id id) (set_row_status status) m db.missions
        (v.one_row id) e in
    elim (Bool-cases (is_active_status status)) [
      | inr quiet ↦ ground (arith, counted, v.one_active c)
      | inl acts ↦ elim (Bool-cases (m.companion_id == c)) [
        | inr other ↦ ground (arith, counted, v.one_active c)
        | inl mine ↦ ground (
          arith,
          counted,
          count_where-one (active_of c) (has_id id) m db.missions (v.one_row id) e (
              others_quiet id c m db (found_id id db.missions m e)
                ((==_iff m.companion_id c).0 mine) (rw acts at x)),
        )
      ]
    ]

set_status-Inv :
    (id : ℕ) (status : MissionStatus) (db : Db)
    → Inv db
    → Inv (after_write db (set_status id status db))
unfolding set_status
set_status-Inv id status db v = elim (Option-cases (find_where (has_id id) db.missions)) [
  | inl e ↦ rw (e, set_status) v
  | inr (m, e) ↦ elim (Bool-cases (refused status m db)) [
    | inl x ↦ rw (e, set_status) (rw x v)
    | inr x ↦
        rw (e, set_status)
          (rw x (
            update-Inv (has_id id) (set_row_status status) db (λ r. refl) v
              (λ c. still_one id status m db v e x c)))
  ]
]

step-Inv : (s : Statement) (db : Db) → Inv db → Inv (step s db)
unfolding step reconcile_jobs append_journal
step-Inv (creates companion goal) db v = create-Inv companion goal db v
step-Inv (activates id input) db v = activate-Inv id input db v
step-Inv (sets_status id status) db v = set_status-Inv id status db v
step-Inv (reconciles id cancelled failed_ids) db v =
    update-Inv (has_id id) (reconcile_row cancelled failed_ids) db (λ m. refl) v
      (λ c. le_trans (count_where-update_where-le _ _ _ (λ m a h. h) db.missions) (v.one_active c))
step-Inv (journals mission input) db v = record {
  one_active = v.one_active;
  one_row = v.one_row;
  fresh = v.fresh;
}

-- From tables that meet the invariant, through any series of statements, by any nodes, with those that
-- the database refuses: no companion has two active missions, and the ids stay unique and fresh.
pub run-Inv : (ss : List Statement) (db : Db) → Inv db → Inv (run ss db)
unfolding run
run-Inv [] db v = v
run-Inv (s ∷ ss) db v = run-Inv ss (step s db) (step-Inv s db v)
