-- ===== src/Jobs/Queue/Coalescing.antt =====
-- Repeated triggers collapse onto one pending row.
use native.Mathlib.Nat.{le_trans}
use cobble_companion.Base.{
  ℕ, ◌≤◌, ◌≡◌, refl, inl, inr, true, false, Option, none, some, List, [], ◌∷◌, ◌++◌, min, Text,
  text_eq_iff, Bool-cases, update_where, exists_where, count_where, count_where-append,
  count_where-eq_zero, count_where-update_where-le, arith, find_where, find_where-append,
  find_where-eq_none, find_where-update_where_self, map_option, count_where-pos,
  count_where-update_where_self, text_eq_self, ==_self, find_where-eq_some,
}
use cobble_companion.Jobs.Tables.{
  Db, JobRow, ClaimedCompanion, EnqueueParams, is_pending, key_of, payload_of, time_of,
}
use cobble_companion.Jobs.Queue.{
  pending_under, enqueue, fresh_row, collapse, claim_still_held, fenced_update, mark_done,
  mark_failed, set_done, set_failed, try_claim, renew_claim, release_claim,
}
use cobble_companion.Jobs.Queue.Trace.{
  Statement, enqueues, claims, marks_done, marks_failed, renews, releases, step, run,
}

-- At most one pending row for each companion and key: the partial unique index of the table.
abbrev pub PendingUnique : Db → Type 0
PendingUnique db = (c : ℕ) (k : Text) → count_where (pending_under c k) db.jobs ≤ 1

-- A row with a fresh key keeps the index.
append-PendingUnique :
    (r : JobRow) (rows : List JobRow)
    → ((c : ℕ) (k : Text) → count_where (pending_under c k) rows ≤ 1)
    → exists_where (pending_under r.companion_id r.dedupe_key) rows ≡ false
    → (c : ℕ) (k : Text) → count_where (pending_under c k) (rows ++ (r ∷ [])) ≤ 1
unfolding count_where pending_under
append-PendingUnique r rows u e c k = ground (
  arith,
  count_where-append (pending_under c k) rows (r ∷ []),
  u c k,
  text_eq_iff r.dedupe_key k,
  count_where-eq_zero (pending_under r.companion_id r.dedupe_key) rows e,
)

enqueue-PendingUnique :
    (p : EnqueueParams) (app_now now : ℕ) (db : Db)
    → PendingUnique db
    → PendingUnique (enqueue p app_now now db)
unfolding enqueue pending_under
enqueue-PendingUnique p app_now now db u c k =
    elim (Bool-cases (exists_where (pending_under p.companion_id (key_of p)) db.jobs)) [
      | inl e ↦ rw e (le_trans (count_where-update_where-le _ _ _ (λ r a h. h) db.jobs) (u c k))
      | inr e ↦ rw e (append-PendingUnique _ db.jobs u e c k)
    ]

settled_not_pending :
    (c : ℕ) (k : Text) (r r' : JobRow)
    → is_pending r'.status ≡ false
    → pending_under c k r' ≡ true
    → pending_under c k r ≡ true
unfolding pending_under
settled_not_pending c k r r' h b = ground arith

fenced_update-PendingUnique :
    (job : ℕ) (claim : ClaimedCompanion) (f : JobRow → JobRow) (db : Db)
    → ((r : JobRow) → is_pending (f r).status ≡ false)
    → PendingUnique db
    → PendingUnique (fenced_update job claim f db).1
unfolding fenced_update
fenced_update-PendingUnique job claim f db h u c k = elim (Bool-cases (claim_still_held claim db)) [
  | inl e ↦ rw e (
      le_trans
        (count_where-update_where-le _ _ _ (λ r a b. settled_not_pending c k r (f r) (h r) b)
          db.jobs)
        (u c k))
  | inr e ↦ rw e (u c k)
]

-- Every statement keeps the index, whoever issues it.
step-PendingUnique :
    (now : ℕ) (s : Statement) (db : Db) → PendingUnique db → PendingUnique (step now s db)
unfolding step try_claim mark_done mark_failed renew_claim release_claim is_pending set_done
    set_failed
step-PendingUnique now (enqueues p app_now) db u c k = enqueue-PendingUnique p app_now now db u c k
step-PendingUnique now (claims companion owner lease_ms) db u c k = ground (arith, u c k)
step-PendingUnique now (marks_done job claim) db u c k =
    fenced_update-PendingUnique job claim _ db (λ r. refl) u c k
step-PendingUnique now (marks_failed job error claim) db u c k =
    fenced_update-PendingUnique job claim _ db (λ r. refl) u c k
step-PendingUnique now (renews companion owner lease_ms) db u c k = ground (arith, u c k)
step-PendingUnique now (releases companion owner) db u c k = ground (arith, u c k)

-- Through any statements of the nodes, from a table that meets the index: no companion has two pending
-- jobs under one key.
pub run-PendingUnique :
    (ss : List (ℕ × Statement)) (db : Db) → PendingUnique db → PendingUnique (run ss db)
unfolding run
run-PendingUnique [] db u = u
run-PendingUnique ((now, s) ∷ ss) db u =
    run-PendingUnique ss (step now s db) (step-PendingUnique now s db u)

-- The time at which the collapsed job becomes due.
abbrev pub earliest : Option JobRow → ℕ → ℕ
earliest none t = t
earliest (some r) t = min r.run_at t

-- The table after a request, from the table before.
abbrev pub Collapsed : EnqueueParams → ℕ → List JobRow → List JobRow → Type 0
Collapsed p app_now before after =
    (count_where (pending_under p.companion_id (key_of p)) after ≡ 1)
    × (map_option (λ r. r.run_at) (find_where (pending_under p.companion_id (key_of p)) after)
        ≡ some (
            earliest (find_where (pending_under p.companion_id (key_of p)) before)
              (time_of p app_now)))
    × (map_option (λ r. r.payload) (find_where (pending_under p.companion_id (key_of p)) after)
        ≡ some (payload_of p))

-- The one request that finds a pending row, and the one that does not.
collapse_lem :
    (p : EnqueueParams) (app_now : ℕ) (rows : List JobRow)
    → count_where (pending_under p.companion_id (key_of p)) rows ≤ 1
    → exists_where (pending_under p.companion_id (key_of p)) rows ≡ true
    → Collapsed p app_now rows
        (update_where (pending_under p.companion_id (key_of p)) (collapse p app_now) rows)
unfolding pending_under collapse
collapse_lem p app_now rows u e =
    let q = pending_under p.companion_id (key_of p) in
    let (r, found) = find_where-eq_some q rows e in
    let found' = find_where-update_where_self q (collapse p app_now) (λ x h. h) rows in
    (
      omega (
        arith,
        count_where-pos q rows e,
        count_where-update_where_self q (collapse p app_now) (λ x h. h) rows,
      ),
      rw (found', found) refl,
      rw (found', found) refl,
    )

insert_lem :
    (p : EnqueueParams) (app_now now id : ℕ) (rows : List JobRow)
    → exists_where (pending_under p.companion_id (key_of p)) rows ≡ false
    → Collapsed p app_now rows (rows ++ (fresh_row p app_now now id ∷ []))
unfolding pending_under count_where find_where fresh_row is_pending
insert_lem p app_now now id rows e =
    let q = pending_under p.companion_id (key_of p) in
    let r = fresh_row p app_now now id in
    let found = find_where-append q rows (r ∷ []) e in
    (
      ground (
        arith,
        count_where-append q rows (r ∷ []),
        count_where-eq_zero q rows e,
        text_eq_self (key_of p),
      ),
      rw (found, find_where-eq_none q rows e, ==_self, text_eq_self) refl,
      rw (found, ==_self, text_eq_self) refl,
    )

-- A request leaves exactly one pending job under its key, due at the earlier of the time asked and
-- the time at which one already waited, and with the payload of this request; given that the table
-- meets its unique index.
pub enqueue_lem :
    (p : EnqueueParams) (app_now now : ℕ) (db : Db)
    → PendingUnique db
    → Collapsed p app_now db.jobs (enqueue p app_now now db).jobs
unfolding enqueue
enqueue_lem p app_now now db u =
    elim (Bool-cases (exists_where (pending_under p.companion_id (key_of p)) db.jobs)) [
      | inl e ↦ rw e (collapse_lem p app_now db.jobs (u p.companion_id (key_of p)) e)
      | inr e ↦ rw e (insert_lem p app_now now db.next_id db.jobs e)
    ]
