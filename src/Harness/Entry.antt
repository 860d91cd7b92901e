-- ===== src/Harness/Entry.antt =====
-- The entry points of packages/core/src/harness/harness.ts: a turn of the user's, and the continuation
-- after an approval. The persona, the mood and the profile stand in the assembled context, which is
-- given.
use cobble_companion.Base.{suc, Bool, true, false, none, [], ◌++◌, if◌then◌else◌, Text, codes}
use cobble_companion.Approvals.Gate.{TurnCtx}
use cobble_companion.Harness.Messages.{
  role_user, LlmMessage, dedupe_citations, all_provenance, message, from_user, failed,
}
use cobble_companion.Harness.Effects.{
  Env, HarnessOptions, Prog, pure, throw, ask, or_throw, modify, ◌>>=◌, ◌>>◌, catch, emit,
  append_message,
}
use cobble_companion.Harness.Turn.{PreparedTurn, push_message}
use cobble_companion.Harness.Loop.{run_loop}

module _ (E : Env) (O : HarnessOptions) where
  abbrev M : Type 0 → Type 0
  M A = Prog E.World A

  unfoldable pub prepare : Text → M PreparedTurn
  unfolding ◌>>=◌ ask or_throw pure modify dedupe_citations all_provenance
  prepare content = do
    found ← ask (E.retrieve_context content)
    history ← or_throw found
    messages ← ask (E.assemble_context history.blocks)
    modify (λ r. record r { messages = messages })
    pure (record {
      turn_citations = dedupe_citations (all_provenance history.blocks);
      retrieval_usage = history.usage;
    })

  -- The snapshot of the transcript for the post-turn reads.
  unfoldable pub take_snapshot : M (Unit {0})
  unfolding ◌>>=◌ ask pure throw
  take_snapshot =
      if O.perceiving then (do ok ← ask E.snapshot; if ok then pure tt else throw) else pure tt

  unfoldable pub perceive : M (Unit {0})
  unfolding pure modify
  perceive =
      if O.perceiving then modify (λ r. record r { perceived = suc r.perceived }) else pure tt

  -- The `try` block of `runTurn`, from the loop on.
  unfoldable pub finish_turn : TurnCtx → PreparedTurn → M Bool
  unfolding ◌>>=◌ pure run_loop perceive
  finish_turn ctx prep = do
    stale ← run_loop E O ctx prep
    if stale then pure true else (do perceive; pure false)

  unfoldable pub turn_body : TurnCtx → Text → M Bool
  unfolding ◌>>=◌ pure append_message prepare take_snapshot finish_turn
  turn_body ctx content = do
    append_message E (record { role = from_user; content = content; kind = message [] })
    prep ← prepare content
    take_snapshot
    finish_turn ctx prep

  -- The handler of an error: the last event says so, and the turn is not superseded.
  unfoldable pub fail_turn : M Bool
  unfolding ◌>>=◌ pure emit
  fail_turn = do emit E failed; pure false

  unfoldable pub run_turn : TurnCtx → Text → M Bool
  unfolding catch turn_body fail_turn
  run_turn ctx content = catch (turn_body ctx content) fail_turn

  abbrev pub outcome_note : Text → LlmMessage
  outcome_note outcome = record {
    role = role_user;
    content =
        codes "[Your proposed action was approved and has completed: "
        ++ (outcome ++ codes " Continue with what the user asked — do not propose it again.]");
    tool_call_id = none;
    tool_calls = [];
  }

  unfoldable pub continue_after_approval : TurnCtx → Text → M Bool
  unfolding ◌>>=◌ catch prepare modify push_message run_loop fail_turn
  continue_after_approval ctx outcome =
      catch
        (do prep ← prepare []; modify (push_message (outcome_note outcome)); run_loop E O ctx prep)
        fail_turn
