-- ===== src/Growth/Racing.antt =====
-- Recomputes of one companion that run at the same time, on one node or several.
use cobble_companion.Base.{
  Bool, true, false, if◌then◌else◌, Option, none, some, ℕ, zero, suc, List, [], ◌∷◌, ◌++◌,
}
use cobble_companion.Growth.Mark.{GrowthSnapshot, get_snapshot, advance}
use cobble_companion.Growth.Service.{
  GrowthView, Note, GrowthTransition, no_progress, target, settle, recompute,
}

-- A recompute that has read the mark and goes on to advance it.
pub record Flight : Type 0 where
  pub stored : GrowthSnapshot
  pub view : GrowthView

pub record System : Type 0 where
  pub row : Option GrowthSnapshot
  pub flights : List Flight

-- What happens next: a recompute with this view reads the mark, or the one at this place in the list
-- settles, with the posts that succeed.
pub data Move : Type 0 where
  begins : GrowthView → Move
  settles : ℕ → (Note → Bool) → Move

-- A recompute that won, and the transition that it gives.
pub record Win : Type 0 where
  pub posts : Note → Bool
  pub of_view : GrowthView
  pub gives : GrowthTransition

unfoldable pub begin : GrowthView → System → System
unfolding get_snapshot no_progress
begin view s =
    let (stored, row) = get_snapshot s.row in
    record {
      row = row;
      flights =
          if no_progress stored view
          then s.flights
          else record { stored = stored; view = view } ∷ s.flights;
    }

abbrev pub drop_at : ℕ → List Flight → List Flight
drop_at i [] = []
drop_at zero (f ∷ fs) = fs
drop_at (suc i) (f ∷ fs) = f ∷ drop_at i fs

abbrev pub flight_at : ℕ → List Flight → Option Flight
flight_at i [] = none
flight_at zero (f ∷ fs) = some f
flight_at (suc i) (f ∷ fs) = flight_at i fs

abbrev pub won : Bool → Win → List Win
won true w = w ∷ []
won false w = []

-- The recompute at this place takes its last steps.
unfoldable pub land : ℕ → (Note → Bool) → Option Flight → System → List Win × System
unfolding settle advance
land i posts none s = ([], s)
land i posts (some f) s =
    let (gives, row) = settle posts f.stored f.view s.row in
    let (wins, _) = advance f.stored (target f.stored f.view) s.row in
    (
      won wins (record { posts = posts; of_view = f.view; gives = gives }),
      record { row = row; flights = drop_at i s.flights },
    )

unfoldable pub step : Move → System → List Win × System
unfolding begin land
step (begins view) s = ([], begin view s)
step (settles i posts) s = land i posts (flight_at i s.flights) s

-- The recomputes that win, in their order, and the last state.
unfoldable pub race : List Move → System → List Win × System
unfolding step
race [] s = ([], s)
race (m ∷ ms) s =
    let (wins, next) = step m s in let (more, last) = race ms next in (wins ++ more, last)

-- Recomputes one after the other, each of them whole: what each gives, and the row.
unfoldable pub in_turn :
    List Win → Option GrowthSnapshot → List GrowthTransition × Option GrowthSnapshot
unfolding recompute
in_turn [] row = ([], row)
in_turn (w ∷ ws) row =
    let (gives, next) = recompute w.posts (some w.of_view) row in
    let (more, last) = in_turn ws next in (gives ∷ more, last)
