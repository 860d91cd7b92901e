-- ===== src/Growth/Service.antt =====
-- core/src/growth/service.ts: a recompute of the growth, and the notes that it posts.
use cobble_companion.Base.{
  ℕ, ◌-◌, max, Bool, true, false, ◌&&◌, ◌||◌, ◌==◌, ltb, if◌then◌else◌, Option, none, some, Text,
  text_eq, List, [], ◌∷◌, ◌++◌, map,
}
use cobble_companion.Growth.Mark.{GrowthSnapshot, get_snapshot, advance}

-- What a recompute derives and compares with the mark: the band of each axis, and the capabilities shown.
pub record GrowthView : Type 0 where
  pub knowledge : ℕ
  pub bond : ℕ
  pub initiative : ℕ
  pub observed : List Text

-- The notes of a transition: one for an axis or for a capability.
pub data Note : Type 0 where
  of_knowledge : Note
  of_bond : Note
  of_initiative : Note
  of_capability : Text → Note

pub record GrowthTransition : Type 0 where
  pub knowledge_advanced : Bool
  pub bond_advanced : Bool
  pub initiative_advanced : Bool
  pub new_capabilities : List Text
  pub reflections : List Note

unfoldable pub empty_transition : GrowthTransition
empty_transition = record {
  knowledge_advanced = false;
  bond_advanced = false;
  initiative_advanced = false;
  new_capabilities = [];
  reflections = [];
}

unfoldable pub includes : List Text → Text → Bool
includes [] key = false
includes (x ∷ xs) key = text_eq x key || includes xs key

-- The keys of the second list that the first one does not include.
unfoldable pub missing : List Text → List Text → List Text
unfolding includes
missing seen [] = []
missing seen (key ∷ keys) =
    let rest = missing seen keys in if includes seen key then rest else key ∷ rest

unfoldable pub union_capabilities : List Text → List Text → List Text
unfolding missing
union_capabilities existing next = existing ++ missing existing next

abbrev pub is_nil : List Text → Bool
is_nil [] = true
is_nil (x ∷ xs) = false

-- Nothing has moved forward.
unfoldable pub no_progress : GrowthSnapshot → GrowthView → Bool
unfolding missing
no_progress stored view =
    (view.knowledge - stored.knowledge_band == 0)
    && (view.bond - stored.bond_band == 0)
    && (view.initiative - stored.initiative_band == 0)
    && is_nil (missing stored.observed_capabilities view.observed)

unfoldable pub target : GrowthSnapshot → GrowthView → GrowthSnapshot
unfolding union_capabilities
target stored view = record {
  knowledge_band = max stored.knowledge_band view.knowledge;
  bond_band = max stored.bond_band view.bond;
  initiative_band = max stored.initiative_band view.initiative;
  observed_capabilities = union_capabilities stored.observed_capabilities view.observed;
}

unfoldable pub notes_of : Bool → Bool → Bool → List Text → List Note
notes_of knowledge bond initiative keys =
    (if knowledge then of_knowledge ∷ [] else [])
    ++ (if bond then of_bond ∷ [] else [])
    ++ (if initiative then of_initiative ∷ [] else [])
    ++ map of_capability keys

-- The posts of `announce`: a note whose post throws is left out.
unfoldable pub posted : (Note → Bool) → List Note → List Note
posted posts [] = []
posted posts (note ∷ notes) =
    let rest = posted posts notes in if posts note then note ∷ rest else rest

-- The transition of a caller that won.
unfoldable pub transition : (Note → Bool) → GrowthSnapshot → GrowthView → GrowthTransition
unfolding missing notes_of posted
transition posts stored view =
    let knows = ltb 0 (view.knowledge - stored.knowledge_band) in
    let bonds = ltb 0 (view.bond - stored.bond_band) in
    let initiates = ltb 0 (view.initiative - stored.initiative_band) in
    let keys = missing stored.observed_capabilities view.observed in
    record {
      knowledge_advanced = knows;
      bond_advanced = bonds;
      initiative_advanced = initiates;
      new_capabilities = keys;
      reflections = posted posts (notes_of knows bonds initiates keys);
    }

abbrev pub conclude :
    (Note → Bool)
    → GrowthSnapshot
    → GrowthView
    → Bool × Option GrowthSnapshot
    → GrowthTransition × Option GrowthSnapshot
unfolding transition empty_transition
conclude posts stored view (true, row) = (transition posts stored view, row)
conclude posts stored view (false, row) = (empty_transition, row)

-- The rest of a recompute after it has read the mark.
unfoldable pub settle :
    (Note → Bool)
    → GrowthSnapshot
    → GrowthView
    → Option GrowthSnapshot
    → GrowthTransition × Option GrowthSnapshot
unfolding advance target conclude
settle posts stored view row = conclude posts stored view (advance stored (target stored view) row)

-- A whole recompute, with nobody in between; the view is none where the companion is gone.
unfoldable pub recompute :
    (Note → Bool)
    → Option GrowthView
    → Option GrowthSnapshot
    → GrowthTransition × Option GrowthSnapshot
unfolding get_snapshot no_progress settle empty_transition
recompute posts none row = (empty_transition, row)
recompute posts (some view) row =
    let (stored, created) = get_snapshot row in
    if no_progress stored view
    then (empty_transition, created)
    else settle posts stored view created
