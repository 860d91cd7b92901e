-- ===== src/Harness/Examples.antt =====
-- Turns of packages/core/src/harness/harness.ts at concrete surroundings: a model that first looks a
-- note up and then answers, and the approval gate before every call.
use cobble_companion.Base.{
  ℕ, zero, suc, ◌≤◌, ◌≡◌, refl, Bool, true, false, none, some, List, [], ◌∷◌, Text, text_eq, codes,
  All, map, subst, Option, inl, inr, ◌&&◌, ◌==◌, ltb,
}
use cobble_companion.Approvals.Tools.{Tool, resolves, get_tool}
use cobble_companion.Approvals.Store.{Db}
use cobble_companion.Approvals.Gate.{ToolCall, TurnCtx, granted, approval_gate}
use cobble_companion.Harness.Messages.{TokenUsage, zero_usage, finishes, Streamed, held}
use cobble_companion.Harness.Effects.{threw, Env, HarnessOptions, Run, Outcome}
use cobble_companion.Harness.Turn.{PreparedTurn}
use cobble_companion.Harness.Loop.{run_loop}
use cobble_companion.Harness.Entry.{run_turn}
use cobble_companion.Harness.Rules.{After}
use cobble_companion.Harness.Frames.{Stands}
use cobble_companion.Harness.Billing.{Charged, run_loop-Charged}
use cobble_companion.Harness.Endings.{TurnEnded, run_turn-TurnEnded}
use cobble_companion.Harness.Limits.{run_loop-streams, gated, Authorised, run_loop-Granted}

abbrev look_up : Tool
look_up = record {
  name = codes "look_up";
  effectful = false;
  silent = false;
  proposal_summary = none;
  step_summary = none;
  run = λ args companion. resolves (record {
    name = codes "look_up";
    content = codes "tea";
    is_error = false;
    tool_call_id = none;
  });
}

abbrev send : Tool
send = record look_up { name = codes "send"; effectful = true }

abbrev tools : List Tool
tools = look_up ∷ send ∷ []

abbrev ask_for : Text → ToolCall
ask_for name = record { name = name; args = codes "{}"; call_id = none }

abbrev spent : ℕ → TokenUsage
spent n = record { prompt_tokens = n; completion_tokens = 0; total_tokens = n }

abbrev ctx : TurnCtx
ctx = record { companion_id = 1; from_mission = false; mission_id = none }

abbrev empty_db : Db
empty_db = record {
  proposals = [];
  leads = [];
  tool_calls = [];
  procedures = [];
  messages = [];
  runs = [];
  next_id = 0;
}

-- The world counts the calls of the model. The first one asks for `first`; the second one answers.
abbrev says : Text → ℕ → Streamed
says first zero = record {
  chunks = codes "Let" ∷ codes " me" ∷ [];
  ending = finishes (spent 10) (ask_for first ∷ []);
}
says first (suc _) = record { chunks = codes "Tea" ∷ []; ending = finishes (spent 7) [] }

abbrev surroundings : Text → Env
surroundings first = record {
  World = ℕ;
  resumes = λ e w. (true, w);
  append = λ d w. (some w, w);
  holds_lease = λ w. (held, w);
  resolve_registry = λ w. (none, w);
  retrieve_context = λ t w. (some (record { blocks = []; usage = spent 3 }), w);
  assemble_context = λ bs w. ([], w);
  snapshot = λ w. (true, w);
  stream = λ ms ts w. (says first w, suc w);
  before_tool_call = λ c x w. (gated (approval_gate tools none c x empty_db).0, w);
  run_tool = λ t args x w. (t.run args x.companion_id, w);
  after_tool_call = λ result c x w. (some result, w);
  spend = λ n w. (true, w);
}

abbrev options : HarnessOptions
options = record {
  registry = tools;
  max_tool_iterations = 6;
  turn_token_budget = none;
  fenced = true;
  resolving = true;
  metered = true;
  perceiving = true;
}

abbrev start : Run ℕ
start = record {
  world = 0;
  events = [];
  rows = [];
  spends = [];
  usage = zero_usage;
  messages = [];
  last_text = [];
  in_flight = none;
  settled = false;
  streams = 0;
  dispatched = [];
  perceived = 0;
}

abbrev prep : PreparedTurn
prep = record { turn_citations = []; retrieval_usage = spent 3 }

abbrev turn : Text → Outcome Bool × Run ℕ
turn first = run_turn (surroundings first) options ctx (codes "?") start

-- A look-up and an answer: one debit of the retrieval and the two calls of the model.
looked_up : (turn (codes "look_up")).1.spends ≡ 20 ∷ []
unfolding run_turn gated approval_gate get_tool text_eq
looked_up = refl

-- An effectful call is held, and nothing is run.
held_back : (turn (codes "send")).1.dispatched ≡ []
unfolding run_turn gated approval_gate get_tool text_eq granted
held_back = refl

run_loop-Charged_example :
    let (o, r) = run_loop (surroundings (codes "look_up")) options ctx prep start in
    Charged options (spent 3) [] o r
run_loop-Charged_example =
    run_loop-Charged (surroundings (codes "look_up")) options ctx prep start refl

run_turn-TurnEnded_example : let (o, r) = turn (codes "look_up") in TurnEnded 0 o r
run_turn-TurnEnded_example =
    run_turn-TurnEnded (surroundings (codes "look_up")) options ctx (codes "?") start
      (tt, (tt, refl))

run_loop-streams_example :
    let (o, r) = run_loop (surroundings (codes "look_up")) options ctx prep start in
    After (λ s. s.streams ≤ 6) o r
run_loop-streams_example = run_loop-streams (surroundings (codes "look_up")) options ctx prep start

-- A turn that mission 5 drives, with a gate that reads whether it is active: it is until the model has
-- been called twice.
abbrev mission_ctx : TurnCtx
mission_ctx = record { companion_id = 1; from_mission = true; mission_id = some 5 }

abbrev missions : ℕ → Option (ℕ → Bool)
missions w = some (λ id. id == 5 && ltb w 2)

abbrev on_mission : Env
on_mission = record (surroundings (codes "send")) {
  before_tool_call = λ c x w. (gated (approval_gate tools (missions w) c x empty_db).0, w);
}

-- The effectful call is run in the first world after the model's answer.
sends_on_mission :
    map (λ d. d.started) (run_loop on_mission options mission_ctx prep start).1.dispatched ≡ 1 ∷ []
unfolding run_loop gated approval_gate get_tool text_eq granted
sends_on_mission = refl

covers :
    (name : Text) (t : Tool)
    → Stands on_mission options name t
    → t.effectful ≡ true
    → (held : Tool) × (get_tool tools name ≡ some held) × (held.effectful ≡ true)
covers name t (registry, inl e, found) is = (t, subst (λ ts. get_tool ts name ≡ some t) e found, is)
covers name t (registry, inr (w, e), found) is = absurd cc

run_loop-Granted_example :
    let (o, r) = run_loop on_mission options mission_ctx prep start in
    After (λ s. All (Authorised missions mission_ctx) s.dispatched) o r
run_loop-Granted_example =
    run_loop-Granted on_mission options mission_ctx prep start tools missions (λ w. empty_db)
      (λ c w. refl) covers tt

-- The reply's row cannot be written: the turn throws inside its finish path, and nothing is debited.
lost_bill :
    let failing = record (surroundings (codes "look_up")) { append = λ d w. (none, w) } in
    let (o, r) = run_loop failing options ctx prep start in
    (o ≡ threw) × ((r.usage.total_tokens ≡ 17) × (r.spends ≡ []))
unfolding run_loop gated approval_gate get_tool text_eq
lost_bill = (refl, (refl, refl))
