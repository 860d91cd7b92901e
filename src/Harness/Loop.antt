-- ===== src/Harness/Loop.antt =====
-- packages/core/src/harness/harness.ts: one iteration and the loop with its `finally`,
-- with the metered stream of packages/core/src/usage.ts and dispatch of tools/dispatch.ts.
use cobble_companion.Base.{
  ℕ, zero, suc, Bool, true, false, ◌&&◌, not, Option, none, some, List, [], ◌∷◌, ◌++◌,
  if◌then◌else◌, Text,
}
use cobble_companion.Approvals.Tools.{
  Tool, ToolResult, get_tool, unknown_tool, with_id, failure, result_of,
}
use cobble_companion.Approvals.Gate.{ToolCall, TurnCtx}
use cobble_companion.Harness.Messages.{
  TokenUsage, estimate_usage, role_assistant, role_tool, LlmMessage, prompt_text, Citation,
  citations, token, StreamEnd, finishes, faults, Gated, goes, blocks, gate_throws,
}
use cobble_companion.Harness.Effects.{
  Env, HarnessOptions, Run, Prog, pure, throw, exhaust, gets, ask, or_throw, modify, ◌>>=◌, ◌>>◌,
  finally, emit,
}
use cobble_companion.Harness.Turn.{
  partial_fallback, or_text, Held, nothing_held, hold_back, Walked, walk_superseded, walked, Next,
  superseded, replied, again, PreparedTurn, push_message, deposit, settle, open_stream, stood_down,
  resolve_turn_registry, exhausted, debit_run, finish, record_tool_step, finish_blocked,
}

unfoldable pub is_silent : Option Tool → Bool
is_silent none = false
is_silent (some t) = t.silent

unfoldable pub tool_message : Text → Option Text → LlmMessage
tool_message content id = record {
  role = role_tool;
  content = content;
  tool_call_id = id;
  tool_calls = [];
}

unfoldable pub call_message : Text → List ToolCall → LlmMessage
call_message text calls = record {
  role = role_assistant;
  content = text;
  tool_call_id = none;
  tool_calls = calls;
}

unfoldable pub dispatched_call : {W : Type 0} → Tool → ToolCall → Run W → Run W
dispatched_call t c r = record r {
  dispatched = r.dispatched ++ (record { tool = t; call = c; started = r.world } ∷ []);
}

-- The estimate that the metering wrapper deposits for a stream that was cut off.
unfoldable pub close_with : {W : Type 0} → Option Text → Run W → Run W
unfolding deposit estimate_usage prompt_text
close_with none r = r
close_with (some text) r = deposit (estimate_usage (prompt_text r.messages) text) r

unfoldable pub close_stream : {W : Type 0} → Run W → Run W
unfolding close_with
close_stream r = close_with r.in_flight r

module _ (E : Env) (O : HarnessOptions) where
  abbrev M : Type 0 → Type 0
  M A = Prog E.World A

  -- `dispatchTool`, with the tool that the name stands for
  unfoldable pub dispatch_to : Option Tool → ToolCall → TurnCtx → Option Text → M ToolResult
  unfolding ◌>>=◌ ask pure modify dispatched_call with_id failure result_of
  dispatch_to none c ctx call_id = pure (with_id call_id (failure c.name (unknown_tool c.name)))
  dispatch_to (some t) c ctx call_id = do
    modify (dispatched_call t c)
    o ← ask (E.run_tool t c.args ctx)
    pure (with_id call_id (result_of c.name o))

  unfoldable pub dispatch : List Tool → ToolCall → TurnCtx → Option Text → M ToolResult
  unfolding dispatch_to
  dispatch registry c = dispatch_to (get_tool registry c.name) c

  -- The record of a call that succeeded, unless the lease is lost: whether it is.
  unfoldable pub note_step : List Tool → ToolCall → ToolResult → M Bool
  unfolding ◌>>=◌ pure stood_down record_tool_step is_silent
  note_step registry c result =
      if not result.is_error && not (is_silent (get_tool registry c.name))
      then (do
        stale ← stood_down E O
        if stale then pure true else (do record_tool_step E O registry c.name c.args; pure false))
      else pure false

  -- A call that the gate let through: whether the turn is superseded.
  unfoldable pub run_call : List Tool → ToolCall → TurnCtx → Option Text → M Bool
  unfolding ◌>>=◌ ask or_throw modify push_message dispatch note_step tool_message
  run_call registry c ctx call_id = do
    result ← dispatch registry c ctx call_id
    after ← ask (E.after_tool_call result c ctx)
    logged ← or_throw after
    modify (push_message (tool_message logged.content call_id))
    note_step registry c result

  -- What the gate's answer to a call leads to, before the walk over the other calls.
  unfoldable pub walk_call :
      Gated → List Tool → TurnCtx → Option Text → (Held → M Walked) → Held → M Walked
  unfolding ◌>>=◌ pure throw run_call hold_back
  walk_call gate_throws registry ctx id rest h = throw
  walk_call (blocks reason p) registry ctx id rest h = rest (hold_back reason p h)
  walk_call (goes c) registry ctx id rest h = do
    stale ← run_call registry c ctx id
    if stale then pure walk_superseded else rest h

  unfoldable pub walk : List Tool → TurnCtx → List ToolCall → Held → M Walked
  unfolding ◌>>=◌ ask pure walk_call
  walk registry ctx [] h = pure (walked h)
  walk registry ctx (c ∷ cs) h = do
    g ← ask (E.before_tool_call c ctx)
    walk_call g registry ctx c.call_id (walk registry ctx cs) h

  -- The tokens as they come, and the text of the turn.
  unfoldable pub emit_chunks : List Text → Text → M Text
  unfolding ◌>>=◌ pure modify emit
  emit_chunks [] text = pure text
  emit_chunks (c ∷ cs) text = do
    modify (λ r. record r { in_flight = some (text ++ c) })
    emit E (token c)
    emit_chunks cs (text ++ c)

  -- A stream that finishes is metered; one that faults is not.
  unfoldable pub end_stream : StreamEnd → M (List ToolCall)
  unfolding ◌>>=◌ pure modify throw deposit
  end_stream (finishes u calls) = do modify (deposit u); pure calls
  end_stream faults = do modify (λ r. record r { in_flight = none }); throw

  -- A stream once it is open, and the calls that the model asks for.
  unfoldable pub read_stream : List Tool → M (List ToolCall)
  unfolding ◌>>=◌ ask gets pure modify emit_chunks end_stream
  read_stream registry = do
    messages ← gets (λ r. r.messages)
    s ← ask (E.stream messages registry)
    text ← emit_chunks s.chunks []
    calls ← end_stream s.ending
    modify (λ r. record r { last_text = text })
    pure calls

  unfoldable pub stream_turn : List Tool → M (List ToolCall)
  unfolding ◌>>=◌ modify open_stream read_stream
  stream_turn registry = do modify open_stream; read_stream registry

  -- A finish path: the run is settled, and ends with a reply.
  unfoldable pub conclude : M (Unit {0}) → M Next
  unfolding ◌>>=◌ pure modify settle
  conclude m = do modify settle; m; pure replied

  -- After the walk: a held turn ends the run.
  unfoldable pub after_walk : Text → List Citation → TokenUsage → Walked → M Next
  unfolding ◌>>=◌ pure conclude stood_down finish_blocked
  after_walk text cs retrieval walk_superseded = pure superseded
  after_walk text cs retrieval (walked h) =
      if h.is_blocked
      then (do
        stale ← stood_down E O
        if stale then pure superseded else conclude (finish_blocked E O text h cs retrieval))
      else pure again

  unfoldable pub reply : Text → List Citation → TokenUsage → M Next
  unfolding ◌>>=◌ pure conclude stood_down finish
  reply text cs retrieval = do
    stale ← stood_down E O
    if stale then pure superseded else conclude (finish E O text cs retrieval)

  unfoldable pub answer :
      TurnCtx → List Tool → List Citation → TokenUsage → Text → List ToolCall → M Next
  unfolding ◌>>=◌ modify push_message walk after_walk reply call_message
  answer ctx registry cs retrieval text [] = reply text cs retrieval
  answer ctx registry cs retrieval text (c ∷ calls) = do
    modify (push_message (call_message text (c ∷ calls)))
    w ← walk registry ctx (c ∷ calls) nothing_held
    after_walk text cs retrieval w

  -- The call of the model in an iteration, and what it leads to.
  unfoldable pub model_step : TurnCtx → List Citation → TokenUsage → M Next
  unfolding ◌>>=◌ gets resolve_turn_registry stream_turn answer
  model_step ctx cs retrieval = do
    registry ← resolve_turn_registry E O
    calls ← stream_turn registry
    text ← gets (λ r. r.last_text)
    answer ctx registry cs retrieval text calls

  unfoldable pub iteration : TurnCtx → List Citation → TokenUsage → ℕ → M Next
  unfolding ◌>>=◌ gets pure conclude stood_down exhausted finish or_text model_step
  iteration ctx cs retrieval i = do
    stale ← stood_down E O
    if stale then pure superseded else (do
      used ← gets (λ r. r.usage)
      last ← gets (λ r. r.last_text)
      if exhausted E O i used
          then conclude (finish E O (or_text last partial_fallback) cs retrieval)
          else model_step ctx cs retrieval)

  -- Whether the turn is superseded, with the iterations that follow.
  abbrev pub after_iteration : Next → M Bool → M Bool
  after_iteration superseded rest = pure true
  after_iteration replied rest = pure false
  after_iteration again rest = rest

  -- The iterations from number `i` on: whether the turn is superseded.
  unfoldable pub loop : TurnCtx → List Citation → TokenUsage → ℕ → ℕ → M Bool
  unfolding ◌>>=◌ pure exhaust iteration
  loop ctx cs retrieval zero i = exhaust
  loop ctx cs retrieval (suc fuel) i = do
    n ← iteration ctx cs retrieval i
    after_iteration n (loop ctx cs retrieval fuel (suc i))

  -- The `finally`: a run that no finish path settled is billed for what was metered.
  unfoldable pub settle_bill : TokenUsage → Run E.World → Run E.World
  unfolding debit_run close_stream
  settle_bill retrieval r = if r.settled then r else debit_run E O retrieval (close_stream r)

  -- The sources are surfaced before the tokens.
  unfoldable pub cite : List Citation → M (Unit {0})
  unfolding pure emit
  cite [] = pure tt
  cite (c ∷ cs) = emit E (citations (c ∷ cs))

  unfoldable pub run_loop : TurnCtx → PreparedTurn → M Bool
  unfolding ◌>>=◌ cite finally settle_bill loop
  run_loop ctx prep = do
    cite prep.turn_citations
    finally (loop ctx prep.turn_citations prep.retrieval_usage (suc O.max_tool_iterations) 0)
        (settle_bill prep.retrieval_usage)
