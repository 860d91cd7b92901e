-- ===== src/Harness/Plans.antt =====
-- What an iteration and the loop lead to, given what is kept up to the end of the run and what the two
-- finish paths do.
use cobble_companion.Base.{
  ℕ, zero, suc, ◌+◌, ◌<◌, ◌≤◌, ◌≡◌, refl, Bool, true, false, none, some, List, [], ◌∷◌, ◌++◌, Text,
  arith,
}
use cobble_companion.Approvals.Tools.{Tool}
use cobble_companion.Approvals.Gate.{ToolCall, TurnCtx}
use cobble_companion.Harness.Messages.{TokenUsage, Citation, token, StreamEnd, finishes, faults}
use cobble_companion.Harness.Effects.{
  Env, HarnessOptions, Run, Outcome, value, threw, dropped, out_of_fuel, Prog, pure, ask, modify,
  continue, ◌>>=◌,
}
use cobble_companion.Harness.Turn.{
  partial_fallback, or_text, Held, Walked, walk_superseded, walked, Next, superseded, replied,
  again, push_message, deposit, settle, open_stream, exhausted,
}
use cobble_companion.Harness.Loop.{
  walk, emit_chunks, end_stream, read_stream, stream_turn, conclude, after_walk, reply, answer,
  model_step, iteration, after_iteration, loop,
}
use cobble_companion.Harness.Rules.{
  Ensures, After, Keeps, Keeps-pure, Keeps-throw, Keeps-gets, Keeps-modify, Ensures-if,
  Ensures-bind, Keeps-bind, keeps_rules,
}
use cobble_companion.Harness.Finale.{Within, Finale, Ensures-finish, Ensures-finish_blocked}
use cobble_companion.Harness.Frames.{
  is_terminal, Frame, Gates, Keeps-ask, Keeps-emit, Keeps-stood_down, Ensures-resolve_turn_registry,
  Resolved, Ensures-walk_call,
}

-- `P i` holds at iteration `i`, and the finish paths take `S` to `F`.
pub record Plan (E : Env) (O : HarnessOptions) (Allowed : ToolCall → E.World → Type 0)
    (retrieval : TokenUsage) (P : ℕ → Run E.World → Type 0) (S B F T D : Run E.World → Type 0)
    : Type 0 where
  pub frame : (i : ℕ) → Frame E O Allowed (P i)
  pub opens :
      (i : ℕ) (r : Run E.World) → i < O.max_tool_iterations → P i r → P (suc i) (open_stream r)
  pub moves : (i : ℕ) (r : Run E.World) → P i r → P (suc i) r
  pub throws : (i : ℕ) (r : Run E.World) → P i r → T r
  pub drops : (i : ℕ) (r : Run E.World) → P i r → D r
  pub settles : (i : ℕ) (r : Run E.World) → P i r → S (settle r)
  pub finale : Finale E O retrieval S B F T D

module _ {E : Env} {O : HarnessOptions} {Allowed : ToolCall → E.World → Type 0}
    {P : Run E.World → Type 0} (F : Frame E O Allowed P) where
  Keeps-walk :
      (ctx : TurnCtx)
      → Gates E ctx Allowed
      → (registry : List Tool) → Resolved E O registry
      → (cs : List ToolCall) (h : Held) → Keeps P (walk E O registry ctx cs h)
  unfolding walk ask ◌>>=◌
  Keeps-walk ctx gates registry known [] h = Keeps-pure _
  Keeps-walk ctx gates registry known (c ∷ cs) h = record {
    at = λ r p.
        let (g, w) = E.before_tool_call c ctx r.world in
        (Ensures-walk_call F _ registry ctx c.call_id (walk E O registry ctx cs) h known
            (Keeps-walk ctx gates registry known cs)).at
          (record r { world = w }) (F.sends.world r w p, λ c' e. gates c c' r.world e);
  }

  Keeps-emit_chunks : (chunks : List Text) (text : Text) → Keeps P (emit_chunks E O chunks text)
  unfolding emit_chunks
  Keeps-emit_chunks [] text = Keeps-pure text
  Keeps-emit_chunks (c ∷ cs) text =
      let rest = Keeps-emit_chunks cs (text ++ c) in
      let calm = Keeps-emit F.sends (token c) (unfold is_terminal in refl) in
      Keeps-bind _ _ (Keeps-modify _ (λ r. F.meter r r.usage (some (text ++ c))))
        (λ _. Keeps-bind _ _ calm (λ _. rest))

  Keeps-end_stream : (e : StreamEnd) → Keeps P (end_stream E O e)
  unfolding end_stream deposit
  Keeps-end_stream (finishes u calls) =
      Keeps-bind _ _ (Keeps-modify _ (λ r. F.meter r _ none)) (λ _. Keeps-pure calls)
  Keeps-end_stream faults =
      Keeps-bind _ _ (Keeps-modify _ (λ r. F.meter r r.usage none)) (λ _. Keeps-throw)

module _ {E : Env} {O : HarnessOptions} {Allowed : ToolCall → E.World → Type 0}
    {retrieval : TokenUsage} {P : ℕ → Run E.World → Type 0} {S B F T D : Run E.World → Type 0}
    (plan : Plan E O Allowed retrieval P S B F T D) where
  -- What iteration `i` leads to: `P` of the next one, where the run has no reply.
  abbrev Ended : ℕ → Next → Run E.World → Type 0
  Ended i superseded r = P (suc i) r
  Ended i again r = (i < O.max_tool_iterations) × P (suc i) r
  Ended i replied r = F r

  -- What the loop leads to: it ends a superseded turn without a reply.
  abbrev pub Result : Bool → Run E.World → Type 0
  Result true r = (i : ℕ) × P i r
  Result false r = F r

  abbrev Step : ℕ → Prog E.World Next → Type 0
  Step i m = Ensures (P (suc i)) m (Within (Ended i) T D)

  concluded :
      (i : ℕ) (o : Outcome (Unit {0})) (r : Run E.World)
      → Within (λ _. F) T D o r
      → let end = continue o (λ _. pure replied) r in Within (Ended i) T D end.0 end.1
  unfolding pure
  concluded i (value _) r h = h
  concluded i threw r h = h
  concluded i dropped r h = h
  concluded i out_of_fuel r h = h

  Step-conclude :
      (i : ℕ) (m : Prog E.World (Unit {0}))
      → Ensures S m (Within (λ _. F) T D)
      → Step i (conclude E O m)
  unfolding conclude ◌>>=◌ modify
  Step-conclude i m h = record {
    at = λ r p. concluded i _ _ (h.at (settle r) (plan.settles (suc i) r p));
  }

  Step-superseded : (i : ℕ) → Step i (pure superseded)
  unfolding pure
  Step-superseded i = record { at = λ r p. p }

  Step-again : (i : ℕ) → i < O.max_tool_iterations → Step i (pure again)
  unfolding pure
  Step-again i below = record { at = λ r p. (below, p) }

  begin : (i : ℕ) {m : Prog E.World Next} → Step i m → Ensures (P i) m (Within (Ended i) T D)
  begin i h = record { at = λ r p. h.at r (plan.moves i r p) }

  -- A part that keeps the predicate, and what follows it.
  Step-bind :
      (i : ℕ) {A : Type 0} (m : Prog E.World A) (f : A → Prog E.World Next)
      → Keeps (P (suc i)) m
      → ((a : A) → Step i (f a))
      → Step i (m >>= f)
  Step-bind i m f km kf = Ensures-bind m f km kf (plan.throws (suc i)) (plan.drops (suc i))

  ruleset step_rules = (Step-superseded, Step-again, Step-bind, Ensures-if, Step-conclude)

  Step-reply : (i : ℕ) (text : Text) (cs : List Citation) → Step i (reply E O text cs retrieval)
  unfolding reply
  Step-reply i text cs =
      search (step_rules, Keeps-stood_down (plan.frame (suc i)), Ensures-finish plan.finale)

  Step-after_walk :
      (i : ℕ) (text : Text) (cs : List Citation) (w : Walked)
      → i < O.max_tool_iterations
      → Step i (after_walk E O text cs retrieval w)
  unfolding after_walk
  Step-after_walk i text cs walk_superseded below = Step-superseded i
  Step-after_walk i text cs (walked h) below =
      search (step_rules, Keeps-stood_down (plan.frame (suc i)), Ensures-finish_blocked plan.finale)

  module _ (ctx : TurnCtx) (gates : Gates E ctx Allowed) where
    Step-answer :
        (i : ℕ) (registry : List Tool) (cs : List Citation) (text : Text) (calls : List ToolCall)
        → Resolved E O registry
        → i < O.max_tool_iterations
        → Step i (answer E O ctx registry cs retrieval text calls)
    unfolding answer push_message
    Step-answer i registry cs text [] known below = Step-reply i text cs
    Step-answer i registry cs text (c ∷ calls) known below =
        let frame = plan.frame (suc i) in
        search
          (
            step_rules,
            Keeps-modify,
            frame.talk,
            Keeps-walk frame ctx gates registry known,
            Step-after_walk,
          )
          depth 9

    Keeps-read_stream : (i : ℕ) (registry : List Tool) → Keeps (P i) (read_stream E O registry)
    unfolding read_stream
    Keeps-read_stream i registry =
        let frame = plan.frame i in
        search
          (
            keeps_rules,
            Keeps-ask frame.sends,
            Keeps-emit_chunks frame,
            Keeps-end_stream frame,
            frame.text,
          )
          depth 9

    -- The part of an iteration that calls the model.
    Ensures-stream_turn :
        (i : ℕ) (registry : List Tool)
        → i < O.max_tool_iterations
        → Ensures (P i) (stream_turn E O registry) (After (P (suc i)))
    unfolding stream_turn modify ◌>>=◌
    Ensures-stream_turn i registry below = record {
      at = λ r p. (Keeps-read_stream (suc i) registry).at (open_stream r) (plan.opens i r below p);
    }

    below_max : (i : ℕ) (u : TokenUsage) → exhausted E O i u ≡ false → i < O.max_tool_iterations
    unfolding exhausted
    below_max i u e = ground arith

    Ensures-model_step :
        (i : ℕ) (cs : List Citation)
        → i < O.max_tool_iterations
        → Ensures (P i) (model_step E O ctx cs retrieval) (Within (Ended i) T D)
    unfolding model_step
    Ensures-model_step i cs below =
        Ensures-resolve_turn_registry (plan.frame i) _ (λ registry known.
          Ensures-bind _ _ (Ensures-stream_turn i registry below)
            (λ calls.
              Step-bind i _ _ (Keeps-gets _)
                (λ text. Step-answer i registry cs text calls known below))
            (plan.throws (suc i)) (plan.drops (suc i)))

    -- An iteration, from the predicate at its number.
    pub Ensures-iteration :
        (i : ℕ) (cs : List Citation)
        → Ensures (P i) (iteration E O ctx cs retrieval i) (Within (Ended i) T D)
    unfolding iteration
    Ensures-iteration i cs =
        Ensures-bind _ _ (Keeps-stood_down (plan.frame i))
          (λ stale.
            Ensures-if stale _ _ (λ _. begin i (Step-superseded i))
              (λ _.
                Ensures-bind _ _ (Keeps-gets (λ r. r.usage))
                  (λ used.
                    Ensures-bind _ _ (Keeps-gets (λ r. r.last_text))
                      (λ last.
                        Ensures-if (exhausted E O i used) _ _
                          (λ _. begin i (
                            Step-conclude i _
                              (Ensures-finish plan.finale (or_text last partial_fallback) cs)))
                          (λ e. Ensures-model_step i cs (below_max i used e)))
                      (plan.throws i) (plan.drops i))
                  (plan.throws i) (plan.drops i)))
          (plan.throws i) (plan.drops i)

    goes_round :
        (fuel i : ℕ) (o : Outcome Next) (r : Run E.World) (rest : Prog E.World Bool)
        → O.max_tool_iterations < i + suc fuel
        → Within (Ended i) T D o r
        → (i < O.max_tool_iterations
            → O.max_tool_iterations < suc i + fuel
            → Ensures (P (suc i)) rest (Within Result T D))
        → let end = continue o (λ n. after_iteration E O n rest) r in Within Result T D end.0 end.1
    unfolding pure
    goes_round fuel i (value superseded) r rest b h k = (suc i, h)
    goes_round fuel i (value replied) r rest b h k = h
    goes_round fuel i (value again) r rest b h k =
        let (below, p) = h in (k below (omega arith)).at r p
    goes_round fuel i threw r rest b h k = h
    goes_round fuel i dropped r rest b h k = h
    goes_round fuel i out_of_fuel r rest b h k = h

    -- The loop, with enough fuel.
    pub Ensures-loop :
        (fuel i : ℕ) (cs : List Citation)
        → O.max_tool_iterations < i + fuel
        → i ≤ O.max_tool_iterations
        → Ensures (P i) (loop E O ctx cs retrieval fuel i) (Within Result T D)
    unfolding loop ◌>>=◌
    Ensures-loop zero i cs b l = absurd (omega arith)
    Ensures-loop (suc fuel) i cs b l = record {
      at = λ r p.
          goes_round fuel i _ _ (loop E O ctx cs retrieval fuel (suc i)) b
            ((Ensures-iteration i cs).at r p)
            (λ below b'. Ensures-loop fuel (suc i) cs b' (omega arith));
    }
