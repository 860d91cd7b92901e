-- ===== src/Jobs/Queue/Groups.antt =====
-- The candidate query: its groups, and their order.
use cobble_companion.Base.{
  ℕ, ◌≤◌, ◌≡◌, ◌⊎◌, refl, sym, ap, subst, inl, inr, ◌&&◌, List, [], ◌∷◌, ◌==◌, leb, min, Bool-cases,
  All, In, All-imp, select_where, arith, ==_iff,
}
use cobble_companion.Jobs.Tables.{Db, JobRow}
use cobble_companion.Jobs.Queue.{
  Group, is_due, claimable, add_to_groups, groups, insert_by_time, sort_by_time,
}

-- The rows of the candidate query: due and pending, of a companion with no live claim.
abbrev pub eligible : ℕ → Db → List JobRow
eligible now db =
    select_where (λ r. is_due now r && claimable now (db.claims r.companion_id)) db.jobs

-- A group stands for its oldest row.
abbrev pub IsOldest : List JobRow → Group → Type 0
IsOldest rs g = (r : JobRow) × In r rs × (r.companion_id ≡ g.0) × (r.run_at ≡ g.1)

-- Every row has its group, which is no later.
abbrev pub Covered : List Group → JobRow → Type 0
Covered gs r = (g : Group) × In g gs × (g.1 ≤ r.run_at)

pub add_to_groups-All {ℓ} :
    (P : Group → Type ℓ) (c t : ℕ) (gs : List Group)
    → P (c, t)
    → All P gs
    → ((u : ℕ) → P (c, u) → P (c, min u t))
    → All P (add_to_groups c t gs)
unfolding add_to_groups
add_to_groups-All P c t [] h k f = (h, tt)
add_to_groups-All P c t ((d, u) ∷ gs) h k f = elim (Bool-cases (d == c)) [
  | inl e ↦
      let dc : d ≡ c = (==_iff d c).0 e in
      rw e (subst (λ x. P (x, min u t)) (sym dc) (f u (subst (λ x. P (x, u)) dc k.0)), k.1)
  | inr e ↦ rw e (k.0, add_to_groups-All P c t gs h k.1 f)
]

pub min_cases : (u t : ℕ) → (min u t ≡ u) ⊎ (min u t ≡ t)
min_cases u t = omega arith

pub groups-IsOldest : (rs : List JobRow) → All (IsOldest rs) (groups rs)
unfolding groups
groups-IsOldest [] = tt
groups-IsOldest (r ∷ rs) =
    add_to_groups-All (IsOldest (r ∷ rs)) r.companion_id r.run_at (groups rs)
      (r, inl refl, refl, refl)
      (All-imp (IsOldest rs) (IsOldest (r ∷ rs)) (λ g (s, m, c, t). (s, inr m, c, t)) (groups rs)
        (groups-IsOldest rs))
      (λ u (s, m, c, t). elim (min_cases u r.run_at) [
        | inl e ↦ (s, m, c, rw e t)
        | inr e ↦ (r, inl refl, refl, sym e)
      ])

pub add_to_groups-Covered :
    (c t : ℕ) (gs : List Group) → (g : Group) × In g (add_to_groups c t gs) × (g.1 ≤ t)
unfolding add_to_groups
add_to_groups-Covered c t [] = ((c, t), inl refl, omega arith)
add_to_groups-Covered c t ((d, u) ∷ gs) = elim (Bool-cases (d == c)) [
  | inl e ↦ ((d, min u t), rw e (inl refl), omega arith)
  | inr e ↦ let (g, m, l) = add_to_groups-Covered c t gs in (g, rw e (inr m), l)
]

pub add_to_groups-keeps :
    (c t : ℕ) (gs : List Group) (r : JobRow) → Covered gs r → Covered (add_to_groups c t gs) r
unfolding add_to_groups
add_to_groups-keeps c t [] r (g, m, l) = absurd m
add_to_groups-keeps c t ((d, u) ∷ gs) r (g, inl e, l) = elim (Bool-cases (d == c)) [
  | inl b ↦ ((d, min u t), rw b (inl refl), omega (arith, ap (λ (x : Group). x.1) e))
  | inr b ↦ ((d, u), rw b (inl refl), omega (arith, ap (λ (x : Group). x.1) e))
]
add_to_groups-keeps c t ((d, u) ∷ gs) r (g, inr m, l) = elim (Bool-cases (d == c)) [
  | inl b ↦ (g, rw b (inr m), l)
  | inr b ↦ let (g', m', l') = add_to_groups-keeps c t gs r (g, m, l) in (g', rw b (inr m'), l')
]

pub groups-Covered : (rs : List JobRow) → All (Covered (groups rs)) rs
unfolding groups
groups-Covered [] = tt
groups-Covered (r ∷ rs) = (
  add_to_groups-Covered r.companion_id r.run_at (groups rs),
  All-imp (Covered (groups rs)) (Covered (groups (r ∷ rs)))
      (λ s h. add_to_groups-keeps r.companion_id r.run_at (groups rs) s h) rs (groups-Covered rs),
)

pub insert_by_time-All {ℓ} :
    (P : Group → Type ℓ) (g : Group) (gs : List Group)
    → P g
    → All P gs
    → All P (insert_by_time g gs)
unfolding insert_by_time
insert_by_time-All P g [] h k = (h, tt)
insert_by_time-All P g (d ∷ gs) h k = elim (Bool-cases (leb g.1 d.1)) [
  | inl e ↦ rw e (h, k)
  | inr e ↦ rw e (k.0, insert_by_time-All P g gs h k.1)
]

pub sort_by_time-All {ℓ} :
    (P : Group → Type ℓ) (gs : List Group) → All P gs → All P (sort_by_time gs)
unfolding sort_by_time
sort_by_time-All P [] h = tt
sort_by_time-All P (g ∷ gs) h =
    insert_by_time-All P g (sort_by_time gs) h.0 (sort_by_time-All P gs h.1)

-- The first of the list is no later than any of the groups.
abbrev pub LeadsBy : List Group → List Group → Type 0
LeadsBy [] gs = gs ≡ []
LeadsBy (h ∷ hs) gs = All (λ g. h.1 ≤ g.1) gs

insert_by_time-LeadsBy :
    (g : Group) (hs gs : List Group) → LeadsBy hs gs → LeadsBy (insert_by_time g hs) (g ∷ gs)
unfolding insert_by_time
insert_by_time-LeadsBy g [] gs h = rw h (omega arith)
insert_by_time-LeadsBy g (d ∷ hs) gs h = elim (Bool-cases (leb g.1 d.1)) [
  | inl e ↦
      let gd : g.1 ≤ d.1 = ground arith in
      rw e (omega arith, All-imp (λ x. d.1 ≤ x.1) (λ x. g.1 ≤ x.1) (λ x k. omega arith) gs h)
  | inr e ↦ rw e (ground arith, h)
]

pub sort_by_time-LeadsBy : (gs : List Group) → LeadsBy (sort_by_time gs) gs
unfolding sort_by_time
sort_by_time-LeadsBy [] = refl
sort_by_time-LeadsBy (g ∷ gs) =
    insert_by_time-LeadsBy g (sort_by_time gs) gs (sort_by_time-LeadsBy gs)
