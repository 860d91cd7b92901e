-- ===== src/Approvals/Store.antt =====
-- packages/core/src/tools/proposal-store.ts and lead-store.ts, with the tables `proposals` and `leads`
-- of db/src/schema.ts, and the appends of tool-call-log.ts and procedural-store.ts. Rows stand in the
-- order in which they were written.
use cobble_companion.Base.{
  ℕ, suc, Bool, true, false, ◌&&◌, Option, none, some, List, [], ◌∷◌, ◌++◌, ◌==◌, if◌then◌else◌,
  Text, text_eq, reverse, select_where, update_where, delete_where, exists_where, find_where,
  map_option, count_where,
}

pub data ProposalStatus : Type 0 where
  pending approved rejected : ProposalStatus

pub data ProposalOrigin : Type 0 where
  chat explore autonomous : ProposalOrigin

pub record CreateProposalInput : Type 0 where
  pub tool_name : Text
  pub tool_args : Text
  pub tool_call_id : Option Text
  pub summary : Text
  pub lead_id : Option ℕ
  pub origin : Option ProposalOrigin

pub record ProposalRow : Type 0 where
  pub id : ℕ
  pub companion_id : ℕ
  pub tool_name : Text
  pub tool_args : Text
  pub tool_call_id : Option Text
  pub summary : Text
  pub status : ProposalStatus
  pub lead_id : Option ℕ
  pub origin : ProposalOrigin
  pub resolved_at : Option ℕ

pub data LeadStatus : Type 0 where
  new read ingested discarded : LeadStatus

pub record LeadRow : Type 0 where
  pub id : ℕ
  pub companion_id : ℕ
  pub url : Text
  pub why : Option Text
  pub status : LeadStatus

pub record ToolCallRow : Type 0 where
  pub companion_id : ℕ
  pub name : Text
  pub args : Text
  pub result : Text

pub record ProcedureRow : Type 0 where
  pub companion_id : ℕ
  pub title : Text
  pub steps : List Text

-- `messages` holds the contents of the `tool_step` rows. `runs` is no table: it records the proposals
-- whose tool has been dispatched.
pub record Db : Type 0 where
  pub proposals : List ProposalRow
  pub leads : List LeadRow
  pub tool_calls : List ToolCallRow
  pub procedures : List ProcedureRow
  pub messages : List Text
  pub runs : List ℕ
  pub next_id : ℕ

abbrev pub is_pending : ProposalStatus → Bool
is_pending pending = true
is_pending _ = false

abbrev pub origin_or_chat : Option ProposalOrigin → ProposalOrigin
origin_or_chat none = chat
origin_or_chat (some o) = o

unfoldable pub new_proposal : ℕ → CreateProposalInput → ℕ → ProposalRow
new_proposal companion input id = record {
  id = id;
  companion_id = companion;
  tool_name = input.tool_name;
  tool_args = input.tool_args;
  tool_call_id = input.tool_call_id;
  summary = input.summary;
  status = pending;
  lead_id = input.lead_id;
  origin = origin_or_chat input.origin;
  resolved_at = none;
}

unfoldable pub create : ℕ → CreateProposalInput → Db → ProposalRow × Db
unfolding new_proposal
create companion input db =
    let p = new_proposal companion input db.next_id in
    (p, record db { proposals = db.proposals ++ (p ∷ []); next_id = suc db.next_id })

unfoldable pub list_pending : ℕ → Db → List ProposalRow
list_pending companion db =
    reverse (select_where (λ p. p.companion_id == companion && is_pending p.status) db.proposals)

unfoldable pub get : ℕ → ℕ → Db → Option ProposalRow
get companion id db = find_where (λ p. p.id == id && p.companion_id == companion) db.proposals

-- The WHERE of the resolving update.
unfoldable pub resolvable : ℕ → ℕ → ProposalRow → Bool
resolvable companion id p = p.id == id && (p.companion_id == companion && is_pending p.status)

unfoldable pub resolve : ProposalStatus → ℕ → ProposalRow → ProposalRow
resolve status now p = record p { status = status; resolved_at = some now }

unfoldable pub mark_resolved : ℕ → ℕ → ProposalStatus → ℕ → Db → Option ProposalRow × Db
unfolding resolvable resolve
mark_resolved companion id status now db = (
  map_option (resolve status now) (find_where (resolvable companion id) db.proposals),
  record db {
    proposals = update_where (resolvable companion id) (resolve status now) db.proposals;
  },
)

-- INSERT … ON CONFLICT DO NOTHING on the companion and the URL.
unfoldable pub same_lead : ℕ → Text → LeadRow → Bool
same_lead companion url l = l.companion_id == companion && text_eq l.url url

unfoldable pub record_lead : ℕ → Text → Option Text → Db → Db
unfolding same_lead
record_lead companion url why db =
    if exists_where (same_lead companion url) db.leads then db else record db {
      leads =
          db.leads
          ++ (record {
            id = db.next_id;
            companion_id = companion;
            url = url;
            why = why;
            status = new;
          }
              ∷ []);
      next_id = suc db.next_id;
    }

unfoldable pub mark_status : ℕ → ℕ → LeadStatus → Db → Db
mark_status companion lead status db = record db {
  leads =
      update_where (λ l. l.id == lead && l.companion_id == companion)
        (λ l. record l { status = status }) db.leads;
}

unfoldable pub clear_leads : ℕ → Db → ℕ × Db
clear_leads companion db = (
  count_where (λ l. l.companion_id == companion) db.leads,
  record db { leads = delete_where (λ l. l.companion_id == companion) db.leads },
)

unfoldable pub log_tool_call : ℕ → Text → Text → Text → Db → Db
log_tool_call companion name args result db = record db {
  tool_calls =
      db.tool_calls
      ++ (record { companion_id = companion; name = name; args = args; result = result } ∷ []);
}

unfoldable pub record_procedure : ℕ → Text → List Text → Db → Db
record_procedure companion title steps db = record db {
  procedures =
      db.procedures ++ (record { companion_id = companion; title = title; steps = steps } ∷ []);
}
