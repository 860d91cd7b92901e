-- ===== src/Approvals/Tools.antt =====
-- packages/core/src/tools/tool.ts, registry.ts and dispatch.ts. What a tool does when it runs is given
-- by its field `run`; arguments are the text of a JSON object.
use cobble_companion.Base.{
  ℕ, Bool, true, Option, none, some, List, [], ◌∷◌, ◌++◌, Text, codes, text_eq, if◌then◌else◌,
}

pub record ToolResult : Type 0 where
  pub name : Text
  pub content : Text
  pub is_error : Bool
  pub tool_call_id : Option Text

-- A run resolves to a result, or throws an error with its message.
pub data RunOutcome : Type 0 where
  resolves : ToolResult → RunOutcome
  throws : Text → RunOutcome

-- A run is given its arguments and the companion of the turn.
pub record Tool : Type 0 where
  pub name : Text
  pub effectful : Bool
  pub silent : Bool
  pub proposal_summary : Option (Text → Text)
  pub step_summary : Option (Text → Text)
  pub run : Text → ℕ → RunOutcome

-- `toolStepSummary`
unfoldable pub tool_step_summary : Tool → Text → Text
tool_step_summary tool args = elim tool.step_summary [
  | some summarise ↦ summarise args
  | none ↦ codes "Used " ++ (tool.name ++ codes ".")
]

-- The map from names to tools, and its `set`.
abbrev pub ByName : Type 0
ByName = Text → Option Tool

unfoldable pub set_tool : Tool → ByName → ByName
set_tool t by_name name = if text_eq t.name name then some t else by_name name

-- The constructor's loop over the tools.
unfoldable pub register_all : List Tool → ByName → ByName
unfolding set_tool
register_all [] by_name = by_name
register_all (t ∷ ts) by_name = register_all ts (set_tool t by_name)

unfoldable pub get_tool : List Tool → ByName
unfolding register_all
get_tool tools = register_all tools (λ _. none)

abbrev pub unknown_tool : Text → Text
unknown_tool name = codes "Error: unknown tool \"" ++ (name ++ codes "\".")

unfoldable pub with_id : Option Text → ToolResult → ToolResult
with_id none result = result
with_id (some id) result = record result { tool_call_id = some id }

unfoldable pub failure : Text → Text → ToolResult
failure name content = record {
  name = name;
  content = content;
  is_error = true;
  tool_call_id = none;
}

-- The result of one run, an error of the tool included.
unfoldable pub result_of : Text → RunOutcome → ToolResult
unfolding failure
result_of name (resolves result) = result
result_of name (throws message) = failure name (codes "Error: " ++ message)

unfoldable pub dispatch_tool : List Tool → Text → Text → ℕ → Option Text → ToolResult
unfolding result_of with_id failure
dispatch_tool tools name args companion call_id = elim (get_tool tools name) [
  | none ↦ with_id call_id (failure name (unknown_tool name))
  | some tool ↦ with_id call_id (result_of name (tool.run args companion))
]
