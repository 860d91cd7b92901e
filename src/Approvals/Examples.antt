-- ===== src/Approvals/Examples.antt =====
-- Tests of the approvals on concrete tools, and instances of their theorems.
use cobble_companion.Base.{
  ◌≤◌, ◌≡◌, refl, true, false, none, List, [], ◌∷◌, codes, text_eq, count_where, find_where,
  update_where, arith,
}
use cobble_companion.Approvals.Tools.{
  Tool, resolves, throws, get_tool, register_all, set_tool, dispatch_tool, result_of, with_id,
  failure,
}
use cobble_companion.Approvals.Store.{
  Db, CreateProposalInput, create, new_proposal, mark_resolved, resolvable, resolve, log_tool_call,
  record_procedure,
}
use cobble_companion.Approvals.Gate.{ToolCall, TurnCtx}
use cobble_companion.Approvals.Confirm.{Writes, execute, book, learn, advance_lead, reject_proposal}
use cobble_companion.Approvals.Race.{
  Step, creates, rejects, begins, finishes, World, Inv, run, step, times_run, approved_of,
  remove_first,
}
use cobble_companion.Approvals.Once.{approved_runs_once}

abbrev mail_tool : Tool
mail_tool = record {
  name = codes "mail";
  effectful = true;
  silent = false;
  proposal_summary = none;
  step_summary = none;
  run = λ args companion. resolves (record {
    name = codes "mail";
    content = codes "sent";
    is_error = false;
    tool_call_id = none;
  });
}

abbrev search_tool : Tool
search_tool = record {
  name = codes "search";
  effectful = false;
  silent = false;
  proposal_summary = none;
  step_summary = none;
  run = λ args companion. throws (codes "offline");
}

abbrev tools : List Tool
tools = mail_tool ∷ search_tool ∷ []

abbrev call : ToolCall
call = record { name = codes "mail"; args = codes "{}"; call_id = none }

abbrev chat_turn : TurnCtx
chat_turn = record { companion_id = 4; from_mission = false; mission_id = none }

abbrev no_proposals : Db
no_proposals = record {
  proposals = [];
  leads = [];
  tool_calls = [];
  procedures = [];
  messages = [];
  runs = [];
  next_id = 0;
}

search_failed : (dispatch_tool tools (codes "search") (codes "{}") 4 none).is_error ≡ true
unfolding dispatch_tool get_tool register_all set_tool text_eq result_of with_id failure
    reject_proposal
search_failed = refl

abbrev input : CreateProposalInput
input = record {
  tool_name = codes "mail";
  tool_args = codes "{}";
  tool_call_id = none;
  summary = codes "Run \"mail\"";
  lead_id = none;
  origin = none;
}

abbrev all_written : Writes
all_written = record { log_ok = true; procedure_ok = true; lead_ok = true; row_ok = true }

-- Two confirmations and a rejection race.
abbrev race : List Step
race =
    creates 4 input
    ∷ begins 4 0 10
    ∷ begins 4 0 11
    ∷ rejects true 4 0 12
    ∷ finishes tools all_written 0
    ∷ finishes tools all_written 0
    ∷ []

abbrev quiet_world : World
quiet_world = record { db = no_proposals; in_flight = [] }

race-run : times_run 0 (run race quiet_world).db ≡ 1
unfolding run step create new_proposal mark_resolved resolvable resolve execute book learn
    advance_lead log_tool_call record_procedure remove_first find_where update_where count_where
    dispatch_tool get_tool register_all set_tool text_eq result_of with_id failure reject_proposal
race-run = refl

quiet_world-Inv : Inv quiet_world
unfolding count_where
quiet_world-Inv = record {
  one_row = λ id. omega arith;
  fresh = λ id le. refl;
  accounted = λ id. omega arith;
}

approved_runs_once_example :
    (times_run 0 (run race quiet_world).db ≤ 1)
    × (times_run 0 (run race quiet_world).db
        ≤ count_where (approved_of 0) (run race quiet_world).db.proposals)
approved_runs_once_example = approved_runs_once race quiet_world 0 quiet_world-Inv
