-- ===== src/Jobs/Queue/Selection.antt =====
-- Which companion a node claims, and which job it runs next.
use cobble_companion.Base.{
  some_inj, All-In, ℕ, ◌≡◌, ◌⊎◌, refl, inl, inr, true, false, ◌&&◌, none, some, List, [], ◌∷◌, ◌==◌,
  Bool-cases, Option-cases, All, In, All-imp, All-select_where, In-select_where, sym, subst,
  select_where, arith,
}
use cobble_companion.Jobs.Tables.{Db, JobRow, QueuedJob}
use cobble_companion.Jobs.Queue.{is_due, runs_before, first_to_run, next_due_job, to_queued}

-- The job that runs next comes before every other that is due, by its time and then its age.
abbrev Before : JobRow → JobRow → Type 0
Before a b = runs_before a b ≡ true

Before-refl : (a : JobRow) → Before a a
unfolding runs_before
Before-refl a = ground arith

Before-trans : (a b c : JobRow) → Before a b → Before b c → Before a c
unfolding runs_before
Before-trans a b c h k = ground arith

not_Before : (a b : JobRow) → runs_before a b ≡ false → Before b a
unfolding runs_before
not_Before a b h = ground arith

first_to_run-none : (rs : List JobRow) → first_to_run rs ≡ none → rs ≡ []
unfolding first_to_run
first_to_run-none [] h = refl
first_to_run-none (s ∷ rs) h = ground arith

-- What the first of a longer list is.
first_to_run-cons :
    (s : JobRow) (rs : List JobRow) (r u : JobRow)
    → first_to_run (s ∷ rs) ≡ some r
    → first_to_run rs ≡ some u
    → ((runs_before s u ≡ true) × (r ≡ s)) ⊎ ((runs_before s u ≡ false) × (r ≡ u))
unfolding first_to_run
first_to_run-cons s rs r u h e = elim (Bool-cases (runs_before s u)) [
  | inl b ↦ inl (b, some_inj (sym (rw (e, b) at h)))
  | inr b ↦ inr (b, some_inj (sym (rw (e, b) at h)))
]

-- A job of the list that comes before all of it.
abbrev IsFirst : List JobRow → JobRow → Type 0
IsFirst rs r = All (Before r) rs × In r rs

IsFirst-cons :
    (s : JobRow) (rs : List JobRow) (u : JobRow)
    → runs_before s u ≡ true
    → IsFirst rs u
    → IsFirst (s ∷ rs) s
IsFirst-cons s rs u b (after, there) = (
  (Before-refl s, All-imp (Before u) (Before s) (λ x k. Before-trans s u x b k) rs after),
  inl refl,
)

first_to_run-IsFirst : (rs : List JobRow) (r : JobRow) → first_to_run rs ≡ some r → IsFirst rs r
unfolding first_to_run
first_to_run-IsFirst [] r h = cc
first_to_run-IsFirst (s ∷ rs) r h = elim (Option-cases (first_to_run rs)) [
  | inl e ↦
      rw (first_to_run-none rs e)
        (subst (IsFirst (s ∷ [])) (some_inj (rw e at h)) ((Before-refl s, tt), inl refl))
  | inr (u, e) ↦
      let first = first_to_run-IsFirst rs u e in
      elim (first_to_run-cons s rs r u h e) [
        | inl (b, sr) ↦ subst (IsFirst (s ∷ rs)) (sym sr) (IsFirst-cons s rs u b first)
        | inr (b, ur) ↦ subst (IsFirst (s ∷ rs)) (sym ur) ((not_Before s u b, first.0), inr first.1)
      ]
]

-- The job that a drain gets is a row of the companion that is pending and due, and of all such rows
-- none comes before it by time and then by age.
pub next_due_job_lem :
    (companion now : ℕ) (db : Db) (q : QueuedJob)
    → next_due_job companion now db ≡ some q
    → (r : JobRow) × (q ≡ to_queued r)
      × In r db.jobs
      × (r.companion_id ≡ companion)
      × (is_due now r ≡ true)
      × All (Before r) (select_where (λ s. s.companion_id == companion && is_due now s) db.jobs)
unfolding next_due_job
next_due_job_lem companion now db q h =
    elim (Option-cases
      (first_to_run (select_where (λ s. s.companion_id == companion && is_due now s) db.jobs))) [
        | inl e ↦ cc (rw e at h)
        | inr (r, e) ↦
            let (after, there) = first_to_run-IsFirst _ r e in
            let fits =
              All-In _ _
                (All-select_where (λ s. s.companion_id == companion && is_due now s) db.jobs) r
                there in
            (
              r,
              some_inj (sym (rw e at h)),
              In-select_where _ db.jobs r there,
              ground (arith, fits),
              ground (arith, fits),
              after,
            )
      ]

-- Where no job is handed out, none of the companion is pending and due.
pub next_due_job-none :
    (companion now : ℕ) (db : Db)
    → next_due_job companion now db ≡ none
    → select_where (λ s. s.companion_id == companion && is_due now s) db.jobs ≡ []
unfolding next_due_job
next_due_job-none companion now db h =
    elim (Option-cases
      (first_to_run (select_where (λ s. s.companion_id == companion && is_due now s) db.jobs))) [
        | inl e ↦ first_to_run-none _ e
        | inr (r, e) ↦ cc (rw e at h)
      ]
