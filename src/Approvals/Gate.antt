-- ===== src/Approvals/Gate.antt =====
-- packages/core/src/tools/gate.ts: the hook before each call of a tool in a turn.
use cobble_companion.Base.{
  ℕ, Bool, false, ◌&&◌, ◌||◌, not, Option, none, some, List, ◌++◌, if◌then◌else◌, Text, codes,
}
use cobble_companion.Approvals.Tools.{Tool, get_tool}
use cobble_companion.Approvals.Store.{Db, ProposalRow, CreateProposalInput, create}

pub record ToolCall : Type 0 where
  pub name : Text
  pub args : Text
  pub call_id : Option Text

pub record TurnCtx : Type 0 where
  pub companion_id : ℕ
  -- The turn's origin is `mission`.
  pub from_mission : Bool
  pub mission_id : Option ℕ

pub data GateResult : Type 0 where
  passes : ToolCall → GateResult
  blocked : Text → ProposalRow → GateResult

-- `missions` answers whether a mission is active at this call, where the gate has that bypass: every
-- call reads it again, with an answer of its own.
unfoldable pub granted : Option (ℕ → Bool) → TurnCtx → Bool
granted none ctx = false
granted (some is_active) ctx = elim ctx.mission_id [
  | none ↦ false
  | some m ↦ ctx.from_mission && is_active m
]

unfoldable pub summary_of : Tool → ToolCall → Text
summary_of tool call = elim tool.proposal_summary [
  | some summarise ↦ summarise call.args
  | none ↦ codes "Run \"" ++ (call.name ++ codes "\"")
]

unfoldable pub held_call : Tool → ToolCall → CreateProposalInput
unfolding summary_of
held_call tool call = record {
  tool_name = call.name;
  tool_args = call.args;
  tool_call_id = call.call_id;
  summary = summary_of tool call;
  lead_id = none;
  origin = none;
}

unfoldable pub hold : Tool → ToolCall → TurnCtx → Db → GateResult × Db
unfolding held_call
hold tool call ctx db =
    let (p, db') = create ctx.companion_id (held_call tool call) db in
    (blocked (summary_of tool call) p, db')

unfoldable pub approval_gate :
    List Tool → Option (ℕ → Bool) → ToolCall → TurnCtx → Db → GateResult × Db
unfolding hold
approval_gate tools missions call ctx db = elim (get_tool tools call.name) [
  | none ↦ (passes call, db)
  | some tool ↦
      if not tool.effectful || granted missions ctx
      then (passes call, db)
      else hold tool call ctx db
]
