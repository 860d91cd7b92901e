-- ===== src/Growth/Once.antt =====
-- What the reflections of racing recomputes celebrate is what the mark has gained.
use mathlib.Core.List.{append_assoc}
use cobble_companion.Base.{
  ℕ, ◌+◌, ◌-◌, ◌≤◌, max, ◌≡◌, sym, ap, ◌∙◌, subst, Bool, true, false, ltb, Bool-cases, inl, inr,
  Option, none, some, Text, List, [], ◌∷◌, ◌++◌, map, append-nil, arith,
}
use cobble_companion.Growth.Mark.{GrowthSnapshot, empty, get_snapshot}
use cobble_companion.Growth.Service.{
  GrowthView, Note, GrowthTransition, empty_transition, missing, union_capabilities, no_progress,
  target, transition, recompute,
}
use cobble_companion.Growth.Racing.{System, Move, Win, race, in_turn}
use cobble_companion.Growth.Linear.{recompute_wins, Flying, race-in_turn}

-- The capabilities that transitions name, in their order.
unfoldable pub named : List GrowthTransition → List Text
named [] = []
named (t ∷ ts) = t.new_capabilities ++ named ts

abbrev one_if : Bool → ℕ
one_if true = 1
one_if false = 0

-- How often transitions advance an axis.
unfoldable pub times : (GrowthTransition → Bool) → List GrowthTransition → ℕ
times axis [] = 0
times axis (t ∷ ts) = one_if (axis t) + times axis ts

-- What the mark has gained from these transitions.
abbrev pub Gained : GrowthSnapshot → List GrowthTransition → GrowthSnapshot → Type 0
Gained from told to =
    (to.observed_capabilities ≡ from.observed_capabilities ++ named told)
    × (from.knowledge_band + times (λ t. t.knowledge_advanced) told ≤ to.knowledge_band)
    × (from.bond_band + times (λ t. t.bond_advanced) told ≤ to.bond_band)
    × (from.initiative_band + times (λ t. t.initiative_advanced) told ≤ to.initiative_band)

raised : (a b : ℕ) → a + one_if (ltb 0 (b - a)) ≤ max a b
raised a b = ground arith

Gained-cons :
    (a b c : GrowthSnapshot) (t : GrowthTransition) (ts : List GrowthTransition)
    → Gained a (t ∷ []) b
    → Gained b ts c
    → Gained a (t ∷ ts) c
unfolding named times
Gained-cons a b c t ts (o, k, d, i) (o', k', d', i') = (
  o'
      ∙ ap (λ q. q ++ named ts)
          (o ∙ ap (λ q. a.observed_capabilities ++ q) (append-nil t.new_capabilities))
      ∙ append_assoc a.observed_capabilities t.new_capabilities (named ts),
  omega arith,
  omega arith,
  omega arith,
)

Gained-none : (a : GrowthSnapshot) → Gained a [] a
unfolding named times
Gained-none a = (sym (append-nil a.observed_capabilities), omega arith, omega arith, omega arith)

Gained-idle : (a : GrowthSnapshot) → Gained a (empty_transition ∷ []) a
unfolding named times empty_transition
Gained-idle a = (sym (append-nil a.observed_capabilities), omega arith, omega arith, omega arith)

Gained-target :
    (posts : Note → Bool) (a : GrowthSnapshot) (view : GrowthView)
    → Gained a (transition posts a view ∷ []) (target a view)
unfolding named times transition target union_capabilities
Gained-target posts a view =
    let keys = missing a.observed_capabilities view.observed in
    (
      ap (λ q. a.observed_capabilities ++ q) (sym (append-nil keys)),
      omega (arith, raised a.knowledge_band view.knowledge),
      omega (arith, raised a.bond_band view.bond),
      omega (arith, raised a.initiative_band view.initiative),
    )

recompute-Gained_made :
    (posts : Note → Bool) (view : GrowthView) (a : GrowthSnapshot)
    → let (t, next) = recompute posts (some view) (some a) in
      Gained a (t ∷ []) (get_snapshot next).0
unfolding recompute get_snapshot
recompute-Gained_made posts view a = elim (Bool-cases (no_progress a view)) [
  | inl idle ↦ rw (idle, recompute) (Gained-idle a)
  | inr moves ↦
      subst (λ p. Gained a (p.0 ∷ []) (get_snapshot p.1).0)
        (sym (recompute_wins posts view a moves)) (Gained-target posts a view)
]

recompute-Gained :
    (posts : Note → Bool) (view : GrowthView) (row : Option GrowthSnapshot)
    → let (t, next) = recompute posts (some view) row in
      Gained (get_snapshot row).0 (t ∷ []) (get_snapshot next).0
unfolding recompute get_snapshot
recompute-Gained posts view none = recompute-Gained_made posts view empty
recompute-Gained posts view (some a) = recompute-Gained_made posts view a

in_turn-Gained :
    (ws : List Win) (row : Option GrowthSnapshot)
    → let (told, last) = in_turn ws row in Gained (get_snapshot row).0 told (get_snapshot last).0
unfolding in_turn
in_turn-Gained [] row = Gained-none (get_snapshot row).0
in_turn-Gained (w ∷ ws) row =
    let (t, next) = recompute w.posts (some w.of_view) row in
    Gained-cons _ (get_snapshot next).0 _ t _ (recompute-Gained w.posts w.of_view row)
      (in_turn-Gained ws next)

-- From a state in which every flight has read a mark of which the row's capabilities are a
-- continuation and has progress to record, the capabilities that the recomputes of a race give as
-- new are, each with its repeats and in their order, those that the mark gains; and each axis is
-- given as advanced at most as many times as the mark gains bands of it.
pub race-Gained :
    (ms : List Move) (s : System)
    → Flying s
    → let (wins, last) = race ms s in
      Gained (get_snapshot s.row).0 (map (λ w. w.gives) wins) (get_snapshot last.row).0
race-Gained ms s h =
    let (given, mark) = race-in_turn ms s h in
    subst (λ told. Gained (get_snapshot s.row).0 told (get_snapshot (race ms s).1.row).0) given
      (subst (Gained (get_snapshot s.row).0 (in_turn (race ms s).0 s.row).0) mark
        (in_turn-Gained (race ms s).0 s.row))
