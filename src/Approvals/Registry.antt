-- ===== src/Approvals/Registry.antt =====
-- Which tool a name stands for.
use cobble_companion.Base.{
  ◌≡◌, refl, Option, none, some, List, [], ◌∷◌, Text, text_eq, if◌then◌else◌, arith,
}
use cobble_companion.Approvals.Tools.{Tool, ByName, set_tool, register_all, get_tool}

-- The last tool of the list under a name.
abbrev pub last_named : Text → List Tool → Option Tool
last_named name [] = none
last_named name (t ∷ ts) = elim (last_named name ts) [
  | some later ↦ some later
  | none ↦ if text_eq t.name name then some t else none
]

abbrev or_else : Option Tool → Option Tool → Option Tool
or_else none other = other
or_else (some t) other = some t

register_all_lem :
    (tools : List Tool) (by_name : ByName) (name : Text)
    → register_all tools by_name name ≡ or_else (last_named name tools) (by_name name)
unfolding register_all set_tool
register_all_lem [] by_name name = refl
register_all_lem (t ∷ ts) by_name name =
    ground (arith, register_all_lem ts (set_tool t by_name) name)

-- A name stands for the last tool that the registry was given under it.
get_tool-last : (tools : List Tool) (name : Text) → get_tool tools name ≡ last_named name tools
unfolding get_tool
get_tool-last tools name = ground (arith, register_all_lem tools (λ _. none) name)
