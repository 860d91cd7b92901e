-- ===== src/Approvals/Confirm.antt =====
-- packages/api/src/proposals/confirm-proposal.ts, and the rejection of
-- packages/api/src/ws/methods/proposals.ts. The confirmation is cut in two after its claim of the
-- proposal: what other nodes do may come in between. Which of the best-effort writes succeed is given.
use cobble_companion.Base.{
  ℕ, Bool, true, false, Option, none, some, List, [], ◌∷◌, ◌++◌, if◌then◌else◌, Text,
}
use cobble_companion.Approvals.Tools.{Tool, ToolResult, dispatch_tool}
use cobble_companion.Approvals.Store.{
  Db, ProposalRow, approved, rejected, LeadStatus, ingested, discarded, mark_resolved, mark_status,
  log_tool_call, record_procedure,
}

pub record Writes : Type 0 where
  pub log_ok : Bool
  pub procedure_ok : Bool
  pub lead_ok : Bool
  pub row_ok : Bool

pub data ConfirmResult : Type 0 where
  not_pending : ConfirmResult
  confirmed : ProposalRow → ToolResult → Option Text → ConfirmResult

unfoldable pub advance_lead : Bool → ℕ → Option ℕ → LeadStatus → Db → Db
advance_lead ok companion none status db = db
advance_lead ok companion (some lead) status db =
    if ok then mark_status companion lead status db else db

-- What a success leaves: the procedure and the lead.
unfoldable pub learn : Writes → ProposalRow → ℕ → Db → Db
unfolding advance_lead
learn writes p companion db =
    advance_lead writes.lead_ok companion p.lead_id ingested (
      if writes.procedure_ok
      then record_procedure companion p.summary (p.tool_name ∷ []) db
      else db)

unfoldable pub book : Writes → ProposalRow → ℕ → ToolResult → Db → Db
unfolding learn
book writes p companion result db =
    let logged =
      if writes.log_ok
      then log_tool_call companion p.tool_name p.tool_args result.content db
      else db in
    let learned = if result.is_error then logged else learn writes p companion logged in
    if writes.row_ok
    then record learned { messages = learned.messages ++ (result.content ∷ []) }
    else learned

-- After the claim: the run, and its bookkeeping.
unfoldable pub execute : List Tool → Writes → ℕ → ProposalRow → Db → ConfirmResult × Db
unfolding book
execute tools writes companion p db =
    let result = dispatch_tool tools p.tool_name p.tool_args companion p.tool_call_id in
    (
      confirmed p result (if writes.row_ok then some result.content else none),
      book writes p companion result (record db { runs = p.id ∷ db.runs }),
    )

unfoldable pub confirm_proposal :
    List Tool → Writes → (Db → Db) → ℕ → ℕ → ℕ → Db → ConfirmResult × Db
unfolding execute
confirm_proposal tools writes others companion id now db =
    let (claimed, db') = mark_resolved companion id approved now db in
    elim claimed [
      | none ↦ (not_pending, db')
      | some p ↦ execute tools writes companion p (others db')
    ]

-- The second component is false where the conflict is thrown.
unfoldable pub reject_proposal : Bool → ℕ → ℕ → ℕ → Db → Bool × Db
unfolding advance_lead
reject_proposal lead_ok companion id now db =
    let (claimed, db') = mark_resolved companion id rejected now db in
    elim claimed [
      | none ↦ (false, db')
      | some p ↦ (true, advance_lead lead_ok companion p.lead_id discarded db')
    ]
