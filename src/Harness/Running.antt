-- ===== src/Harness/Running.antt =====
-- What a whole run of the loop leads to: `runLoop` of packages/core/src/harness/harness.ts, with its
-- first event and its `finally`.
use cobble_companion.Base.{
  ℕ, suc, refl, Bool, true, false, ◌&&◌, ltb, Option, none, some, List, [], ◌∷◌, ◌++◌, Text,
  if◌then◌else◌, arith,
}
use cobble_companion.Approvals.Gate.{ToolCall, TurnCtx}
use cobble_companion.Harness.Messages.{TokenUsage, add_usage, Citation, citations}
use cobble_companion.Harness.Effects.{
  Env, HarnessOptions, Run, Outcome, value, dropped, Prog, pure, continue, ◌>>=◌, finally, emit,
}
use cobble_companion.Harness.Turn.{PreparedTurn, deposit, debit, debit_run}
use cobble_companion.Harness.Loop.{close_with, close_stream, loop, settle_bill, cite, run_loop}
use cobble_companion.Harness.Rules.{Ensures}
use cobble_companion.Harness.Frames.{is_terminal, Gates}
use cobble_companion.Harness.Finale.{Within}
use cobble_companion.Harness.Plans.{Plan, Result, Ensures-loop}

-- What the debits and the metering leave true.
pub record Settles (E : Env) (P : Run E.World → Type 0) : Type 0 where
  pub spends :
      (r : Run E.World) (w : E.World) (ns : List ℕ) → P r → P (record r { world = w; spends = ns })
  pub metered :
      (r : Run E.World) (u : TokenUsage) (f : Option Text)
      → P r
      → P (record r { usage = u; in_flight = f })

module _ {E : Env} {P : Run E.World → Type 0} (s : Settles E P) (O : HarnessOptions) where
  either : (b : Bool) (x y : Run E.World) → P x → P y → P (if b then x else y)
  either true x y h k = h
  either false x y h k = k

  pub debit_run_keeps : (u : TokenUsage) (r : Run E.World) → P r → P (debit_run E O u r)
  unfolding debit_run debit
  debit_run_keeps u r h =
      let total = (add_usage u r.usage).total_tokens in
      either (O.metered && ltb 0 total) _ _
        (s.spends r (E.spend total r.world).1 (r.spends ++ (total ∷ [])) h) h

  close_with_keeps : (t : Option Text) (r : Run E.World) → P r → P (close_with t r)
  unfolding close_with deposit
  close_with_keeps none r h = h
  close_with_keeps (some text) r h = s.metered r _ none h

  pub settle_bill_keeps : (u : TokenUsage) (r : Run E.World) → P r → P (settle_bill E O u r)
  unfolding settle_bill close_stream
  settle_bill_keeps u r h =
      either r.settled _ _ h (debit_run_keeps u (close_stream r) (close_with_keeps r.in_flight r h))

module _ {E : Env} {O : HarnessOptions} {Allowed : ToolCall → E.World → Type 0}
    {P : ℕ → Run E.World → Type 0} {S B F T D : Run E.World → Type 0} (prep : PreparedTurn)
    (plan : Plan E O Allowed prep.retrieval_usage P S B F T D) (ctx : TurnCtx)
    (gates : Gates E ctx Allowed) (Q : Outcome Bool → Run E.World → Type 0)
    (closes : (o : Outcome Bool) (r : Run E.World)
      → Within (Result plan) T D o r
      → Q o (settle_bill E O prep.retrieval_usage r))
    (drops : (r : Run E.World) → P 0 r → Q dropped r) where
  Ensures-finally :
      Ensures
        (P 0)
        (finally
          (loop E O ctx prep.turn_citations prep.retrieval_usage (suc O.max_tool_iterations) 0)
          (settle_bill E O prep.retrieval_usage))
        Q
  unfolding finally
  Ensures-finally = record {
    at = λ r p. closes _ _ (
        (Ensures-loop plan ctx gates (suc O.max_tool_iterations) 0 prep.turn_citations (omega arith)
            (omega arith)).at
          r p);
  }

  -- The first event, which the consumer may drop the generator at, and the loop.
  cited :
      (b : Bool) (m : Prog E.World Bool) (r : Run E.World)
      → P 0 r
      → Ensures (P 0) m Q
      → let end = continue {A = Unit {0}} (if b then value tt else dropped) (λ _. m) r in
        Q end.0 end.1
  cited true m r p h = h.at r p
  cited false m r p h = drops r p

  Ensures-cite :
      (cs : List Citation) (m : Prog E.World Bool)
      → Ensures (P 0) m Q
      → Ensures (P 0) (cite E O cs >>= λ _. m) Q
  unfolding cite ◌>>=◌ pure emit is_terminal
  Ensures-cite [] m h = h
  Ensures-cite (c ∷ cs) m h = record {
    at = λ r p. cited _ m _ ((plan.frame 0).sends.calm r _ (citations (c ∷ cs)) refl p) h;
  }

  pub Ensures-run_loop : Ensures (P 0) (run_loop E O ctx prep) Q
  unfolding run_loop
  Ensures-run_loop = Ensures-cite prep.turn_citations _ Ensures-finally
