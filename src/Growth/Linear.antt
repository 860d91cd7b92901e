-- ===== src/Growth/Linear.antt =====
-- Recomputes that race are those that win, one after the other.
use cobble_companion.Base.{
  ℕ, zero, suc, ◌≡◌, refl, sym, ap, ◌∙◌, subst, Bool, true, false, ◌&&◌, ◌==◌, ==_iff, ==_self, inl,
  inr, ◌⊎◌, Bool-cases, Option-cases, some_inj, Option, none, some, Text, List, [], ◌∷◌, ◌++◌, map,
  length, length-append, append-nil, All, All-imp, arith,
}
use mathlib.Core.List.{append_assoc}
use cobble_companion.Growth.Mark.{GrowthSnapshot, empty, get_snapshot, matches, advance}
use cobble_companion.Growth.Service.{
  GrowthView, Note, missing, union_capabilities, no_progress, target, transition, settle, recompute,
}
use cobble_companion.Growth.Racing.{
  Flight, System, Move, begins, settles, Win, begin, drop_at, flight_at, land, step, race, in_turn,
}

-- A recompute in flight has progress to record, and its mark holds the first of the row's capabilities.
abbrev pub Ready : Option GrowthSnapshot → Flight → Type 0
Ready row f =
    (r : GrowthSnapshot) × (row ≡ some r)
    × ((more : List Text) × (r.observed_capabilities ≡ f.stored.observed_capabilities ++ more))
    × (no_progress f.stored f.view ≡ false)

abbrev pub Flying : System → Type 0
Flying s = All (Ready s.row) s.flights

matches_self : (r : GrowthSnapshot) → matches r r ≡ true
unfolding matches
matches_self r = rw (
  ==_self r.knowledge_band,
  ==_self r.bond_band,
  ==_self r.initiative_band,
  ==_self (length r.observed_capabilities),
)

and_cases : (a b : Bool) → (a && b) ≡ true → (a ≡ true) × (b ≡ true)
and_cases true b h = (refl, h)
and_cases false b h = absurd cc

append_same : (xs ys : List Text) → length (xs ++ ys) ≡ length xs → xs ++ ys ≡ xs
append_same xs [] h = append-nil xs
append_same xs (y ∷ ys) h = let l = length-append xs (y ∷ ys) in absurd (omega arith)

-- A row that passes the test of `advance` is the mark that was read.
matches_same :
    (r from : GrowthSnapshot) (more : List Text)
    → r.observed_capabilities ≡ from.observed_capabilities ++ more
    → matches r from ≡ true
    → r ≡ from
unfolding matches
matches_same r from more e h =
    let same_knowledge = r.knowledge_band == from.knowledge_band in
    let same_bond = r.bond_band == from.bond_band in
    let same_initiative = r.initiative_band == from.initiative_band in
    let same_keys = length r.observed_capabilities == length from.observed_capabilities in
    let (bands, l) = and_cases (same_knowledge && same_bond && same_initiative) same_keys h in
    let (two, i) = and_cases (same_knowledge && same_bond) same_initiative bands in
    let (k, b) = and_cases same_knowledge same_bond two in
    let knows = (==_iff r.knowledge_band from.knowledge_band).0 k in
    let bonds = (==_iff r.bond_band from.bond_band).0 b in
    let initiates = (==_iff r.initiative_band from.initiative_band).0 i in
    let long = (==_iff (length r.observed_capabilities) (length from.observed_capabilities)).0 l in
    let keys : r.observed_capabilities ≡ from.observed_capabilities =
      e ∙ append_same from.observed_capabilities more (sym (ap length e) ∙ long) in
    λ j. record {
      knowledge_band = knows j;
      bond_band = bonds j;
      initiative_band = initiates j;
      observed_capabilities = keys j;
    }

-- The row after a win.
abbrev after : GrowthSnapshot → Flight → ℕ → System → System
after r f i s = record { row = some (target r f.view); flights = drop_at i s.flights }

abbrev winner : (Note → Bool) → GrowthSnapshot → Flight → Win
winner posts r f = record { posts = posts; of_view = f.view; gives = transition posts r f.view }

advance_same : (r to : GrowthSnapshot) → advance r to (some r) ≡ (true, some to)
unfolding advance
advance_same r to = rw (matches_self r)

-- A recompute that wins has read the row that it advances.
land_cases :
    (i : ℕ) (posts : Note → Bool) (f : Flight) (s : System)
    → Ready s.row f
    → (land i posts (some f) s ≡ ([], record { row = s.row; flights = drop_at i s.flights }))
      ⊎ ((r : GrowthSnapshot) × (s.row ≡ some r)
          × (f.stored ≡ r)
          × (land i posts (some f) s ≡ (winner posts r f ∷ [], after r f i s)))
unfolding land settle advance
land_cases i posts f s (r, e, (more, keys), p) = elim (Bool-cases (matches r f.stored)) [
  | inr lost ↦ inl (rw (e, settle, advance, lost))
  | inl same ↦
      let read = sym (matches_same r f.stored more keys same) in
      inr (r, e, read, rw (e, read, settle, advance_same r (target r f.view)))
]

pub recompute_wins :
    (posts : Note → Bool) (view : GrowthView) (r : GrowthSnapshot)
    → no_progress r view ≡ false
    → recompute posts (some view) (some r) ≡ (transition posts r view, some (target r view))
unfolding recompute get_snapshot settle
recompute_wins posts view r h = rw (h, settle, advance_same r (target r view))

drop_at-All : (P : Flight → Type 0) (i : ℕ) (fs : List Flight) → All P fs → All P (drop_at i fs)
drop_at-All P i [] h = h
drop_at-All P zero (f ∷ fs) h = h.1
drop_at-All P (suc i) (f ∷ fs) h = (h.0, drop_at-All P i fs h.1)

flight_at-All :
    (P : Flight → Type 0) (i : ℕ) (fs : List Flight) (f : Flight)
    → All P fs
    → flight_at i fs ≡ some f
    → P f
flight_at-All P i [] f h e = absurd cc
flight_at-All P zero (g ∷ fs) f h e = subst P (some_inj e) h.0
flight_at-All P (suc i) (g ∷ fs) f h e = flight_at-All P i fs f h.1 e

-- A flight stays ready when the row takes more capabilities.
Ready-target :
    (r : GrowthSnapshot) (view : GrowthView) (f : Flight)
    → Ready (some r) f
    → Ready (some (target r view)) f
unfolding target union_capabilities
Ready-target r view f (r', e, (more, keys), p) =
    let added = missing r.observed_capabilities view.observed in
    let grown =
      ap (λ q. q.observed_capabilities ++ added) (some_inj e) ∙ ap (λ q. q ++ added) keys in
    (
      target r view,
      refl,
      (more ++ added, grown ∙ append_assoc f.stored.observed_capabilities more added),
      p,
    )

-- A mark that has just been read.
Ready-fresh :
    (r : GrowthSnapshot) (view : GrowthView)
    → no_progress r view ≡ false
    → Ready (some r) (record { stored = r; view = view })
Ready-fresh r view h = (r, refl, ([], sym (append-nil r.observed_capabilities)), h)

begin-Flying :
    (view : GrowthView) (row : Option GrowthSnapshot) (fs : List Flight)
    → All (Ready row) fs
    → Flying (begin view (record { row = row; flights = fs }))
unfolding begin get_snapshot
begin-Flying view none fs h = elim (Bool-cases (no_progress empty view)) [
  | inl idle ↦ rw idle (All-imp (Ready none) (Ready (some empty)) (λ f k. absurd cc) fs h)
  | inr moves ↦ rw moves (
    Ready-fresh empty view moves,
    All-imp (Ready none) (Ready (some empty)) (λ f k. absurd cc) fs h,
  )
]
begin-Flying view (some r) fs h = elim (Bool-cases (no_progress r view)) [
  | inl idle ↦ rw idle h
  | inr moves ↦ rw moves (Ready-fresh r view moves, h)
]

land-Flying :
    (i : ℕ) (posts : Note → Bool) (f : Flight) (s : System)
    → Flying s
    → Ready s.row f
    → Flying (land i posts (some f) s).1
land-Flying i posts f s h ready = elim (land_cases i posts f s ready) [
  | inl lost ↦ rw lost (drop_at-All (Ready s.row) i s.flights h)
  | inr (r, e, read, wins) ↦ rw wins (
      All-imp (Ready (some r)) (Ready (some (target r f.view))) (Ready-target r f.view)
        (drop_at i s.flights)
        (drop_at-All (Ready (some r)) i s.flights (subst (λ row. All (Ready row) s.flights) e h)))
]

-- Recomputes in turn do the same where the row has been made beforehand.
in_turn_created :
    (ws : List Win) (row : Option GrowthSnapshot)
    → let lazy = in_turn ws row in
      let made = in_turn ws (get_snapshot row).1 in
      (lazy.0 ≡ made.0) × ((get_snapshot lazy.1).0 ≡ (get_snapshot made.1).0)
unfolding in_turn get_snapshot recompute
in_turn_created ws (some r) = (refl, refl)
in_turn_created [] none = (refl, refl)
in_turn_created (w ∷ ws) none = (refl, refl)

-- What the recomputes of a race give, and the mark that they leave, against those that win in turn.
abbrev Agrees : List Win → Option GrowthSnapshot → Option GrowthSnapshot → Type 0
Agrees wins row last =
    ((in_turn wins row).0 ≡ map (λ w. w.gives) wins)
    × ((get_snapshot (in_turn wins row).1).0 ≡ (get_snapshot last).0)

begin-Agrees :
    (view : GrowthView) (s : System) (wins : List Win) (last : Option GrowthSnapshot)
    → Agrees wins (begin view s).row last
    → Agrees wins s.row last
unfolding begin
begin-Agrees view s wins last (g, m) =
    let (given, mark) = in_turn_created wins s.row in (given ∙ g, mark ∙ m)

winner-Agrees :
    (posts : Note → Bool) (r : GrowthSnapshot) (f : Flight) (wins : List Win)
    (row last : Option GrowthSnapshot)
    → row ≡ some r
    → no_progress r f.view ≡ false
    → Agrees wins (some (target r f.view)) last
    → Agrees (winner posts r f ∷ wins) row last
unfolding in_turn
winner-Agrees posts r f wins row last e p (g, m) =
    rw (e, in_turn, recompute_wins posts f.view r p)
      (ap (λ ts. transition posts r f.view ∷ ts) g, m)

-- What a move and the rest of the race give.
abbrev AgreesAfter : List Move → System → List Win × System → Type 0
AgreesAfter ms s moved = Agrees (moved.0 ++ (race ms moved.1).0) s.row (race ms moved.1).1.row

-- Recomputes that race, from a state in which every flight has read a mark of which the row's
-- capabilities are a continuation and has progress to record, give the transitions, reflections
-- included, and leave the mark that the winners of the race, recomputing whole and one after the
-- other from the same row, give and leave.
pub race-in_turn :
    (ms : List Move) (s : System)
    → Flying s
    → let (wins, last) = race ms s in
      ((in_turn wins s.row).0 ≡ map (λ w. w.gives) wins)
      × ((get_snapshot (in_turn wins s.row).1).0 ≡ (get_snapshot last.row).0)
unfolding race step in_turn
race-in_turn [] s h = (refl, refl)
race-in_turn (begins view ∷ ms) s h =
    let rest = race-in_turn ms (begin view s) (begin-Flying view s.row s.flights h) in
    begin-Agrees view s _ (race ms (begin view s)).1.row rest
race-in_turn (settles i posts ∷ ms) s h = elim (Option-cases (flight_at i s.flights)) [
  | inl gone ↦ rw (gone, land) (race-in_turn ms s h)
  | inr (f, e) ↦
      let ready = flight_at-All (Ready s.row) i s.flights f h e in
      elim (land_cases i posts f s ready) [
        | inl lost ↦ rw e (
            subst (AgreesAfter ms s) (sym lost) (
              race-in_turn ms (record { row = s.row; flights = drop_at i s.flights })
                (drop_at-All (Ready s.row) i s.flights h)))
        | inr (r, here, read, wins) ↦
            let flying = subst (λ w. Flying w.1) wins (land-Flying i posts f s h ready) in
            let (_, _, _, moves) = ready in
            rw e (
              subst (AgreesAfter ms s) (sym wins) (
                winner-Agrees posts r f _ s.row (race ms (after r f i s)).1.row here
                  (subst (λ q. no_progress q f.view ≡ false) read moves)
                  (race-in_turn ms (after r f i s) flying)))
      ]
]
