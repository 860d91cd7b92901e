-- ===== src/Growth/Examples.antt =====
-- Tests of racing recomputes, and instances of their theorems.
use cobble_companion.Base.{◌≡◌, refl, true, false, none, ◌∷◌, [], map, codes, text_eq, List}
use cobble_companion.Growth.Mark.{empty, get_snapshot, matches, advance}
use cobble_companion.Growth.Service.{
  GrowthView, includes, missing, union_capabilities, no_progress, target, transition, settle,
}
use cobble_companion.Growth.Racing.{System, Move, begins, settles, begin, land, step, race, in_turn}
use cobble_companion.Growth.Linear.{race-in_turn}
use cobble_companion.Growth.Once.{Gained, race-Gained}

abbrev idle : System
idle = record { row = none; flights = [] }

abbrev first_view : GrowthView
first_view = record {
  knowledge = 2;
  bond = 0;
  initiative = 1;
  observed = codes "web_research" ∷ [];
}

abbrev second_view : GrowthView
second_view = record {
  knowledge = 1;
  bond = 3;
  initiative = 0;
  observed = codes "web_research" ∷ codes "memory_recall" ∷ [];
}

-- Two recomputes read the mark, the later one settles first, and a third one follows.
abbrev moves : List Move
moves =
    begins first_view
    ∷ begins second_view
    ∷ settles 0 (λ note. true)
    ∷ settles 0 (λ note. true)
    ∷ begins first_view
    ∷ settles 0 (λ note. false)
    ∷ []

-- The one that read the mark before it moved loses.
two_wins :
    map (λ w. w.gives.new_capabilities) (race moves idle).0
    ≡ (codes "web_research" ∷ codes "memory_recall" ∷ []) ∷ [] ∷ []
unfolding race step begin get_snapshot empty no_progress missing includes land settle advance
    matches target union_capabilities transition text_eq
two_wins = refl

race-in_turn_example :
    let (wins, last) = race moves idle in
    ((in_turn wins none).0 ≡ map (λ w. w.gives) wins)
    × ((get_snapshot (in_turn wins none).1).0 ≡ (get_snapshot last.row).0)
race-in_turn_example = race-in_turn moves idle tt

race-Gained_example :
    let (wins, last) = race moves idle in
    Gained (get_snapshot none).0 (map (λ w. w.gives) wins) (get_snapshot last.row).0
race-Gained_example = race-Gained moves idle tt
