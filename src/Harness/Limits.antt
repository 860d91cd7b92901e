-- ===== src/Harness/Limits.antt =====
-- What a run of packages/core/src/harness/harness.ts may call: the model no more often than its limit,
-- and no tool that the gate holds.
use cobble_companion.Base.{
  ℕ, suc, ◌+◌, ◌≤◌, ◌<◌, ◌≡◌, refl, ◌&&◌, Text, none, sym, ◌∙◌, Bool, true, false, Option, some,
  List, [], ◌∷◌, ◌++◌, All, All-append, Option-cases, Bool-cases, inl, inr, arith,
}
use cobble_companion.Approvals.Tools.{Tool, get_tool}
use cobble_companion.Approvals.Store.{Db}
use cobble_companion.Approvals.Gate.{
  ToolCall, TurnCtx, GateResult, passes, blocked, granted, hold, approval_gate,
}
use cobble_companion.Harness.Messages.{ChatStreamEvent, Gated, goes, blocks}
use cobble_companion.Harness.Effects.{
  Env, HarnessOptions, Dispatch, Run, Outcome, value, threw, dropped, out_of_fuel,
}
use cobble_companion.Harness.Turn.{PreparedTurn, settle, open_stream}
use cobble_companion.Harness.Loop.{dispatched_call, settle_bill, run_loop}
use cobble_companion.Harness.Rules.{Ensures, After}
use cobble_companion.Harness.Frames.{Sends, Frame, Gates, Stands}
use cobble_companion.Harness.Finale.{Within}
use cobble_companion.Harness.Plans.{Plan, Result}
use cobble_companion.Harness.Running.{Settles, debit_run_keeps, settle_bill_keeps, Ensures-run_loop}

-- What every part of a run keeps, the debits and the finish paths included.
pub record Lasting (E : Env) (O : HarnessOptions) (Allowed : ToolCall → E.World → Type 0)
    (P : Run E.World → Type 0) : Type 0 where
  pub frame : Frame E O Allowed P
  pub settles : (r : Run E.World) → P r → P (settle r)
  pub sends : Sends E true P
  pub ends :
      (r : Run E.World) (w : E.World) (e : ChatStreamEvent)
      → P r
      → P (record r { world = w; events = r.events ++ (e ∷ []) })
  pub spends :
      (r : Run E.World) (w : E.World) (ns : List ℕ) → P r → P (record r { world = w; spends = ns })

module _ {E : Env} {Allowed : ToolCall → E.World → Type 0} {P : ℕ → Run E.World → Type 0}
    {L : Run E.World → Type 0} (O : HarnessOptions) (prep : PreparedTurn)
    (lasting : (i : ℕ) → Lasting E O Allowed (P i)) (last : Lasting E O Allowed L)
    (opens : (i : ℕ) (r : Run E.World)
      → i < O.max_tool_iterations
      → P i r
      → P (suc i) (open_stream r))
    (moves : (i : ℕ) (r : Run E.World) → P i r → P (suc i) r)
    (lasts : (i : ℕ) (r : Run E.World) → P i r → L r) where
  Settles-last : Settles E L
  Settles-last = record { spends = last.spends; metered = last.frame.meter }

  plan : Plan E O Allowed prep.retrieval_usage P L L L L L
  plan = record {
    frame = λ i. (lasting i).frame;
    opens = opens;
    moves = moves;
    throws = lasts;
    drops = lasts;
    settles = λ i r h. last.settles r (lasts i r h);
    finale = record {
      before = last.sends;
      after = last.sends;
      pays = debit_run_keeps Settles-last O prep.retrieval_usage;
      ends = λ r w e q h. last.ends r w e h;
      throws_before = λ r h. h;
      throws_after = λ r h. h;
      drops_before = λ r h. h;
      drops_after = λ r h. h;
      drops_last = λ r h. h;
    };
  }

  closes :
      (o : Outcome Bool) (r : Run E.World)
      → Within (Result plan) L L o r
      → After L o (settle_bill E O prep.retrieval_usage r)
  closes (value true) r h =
      settle_bill_keeps Settles-last O prep.retrieval_usage r (lasts h.0 r h.1)
  closes (value false) r h = settle_bill_keeps Settles-last O prep.retrieval_usage r h
  closes threw r h = settle_bill_keeps Settles-last O prep.retrieval_usage r h
  closes dropped r h = settle_bill_keeps Settles-last O prep.retrieval_usage r h
  closes out_of_fuel r h = h

  pub Ensures-lasting :
      (ctx : TurnCtx) → Gates E ctx Allowed → Ensures (P 0) (run_loop E O ctx prep) (After L)
  Ensures-lasting ctx gates = Ensures-run_loop prep plan ctx gates (After L) closes (lasts 0)

-- A predicate on the calls of the model and the runs of the tools.
Lasting-calls :
    (E : Env) (O : HarnessOptions) (Allowed : ToolCall → E.World → Type 0)
    (P : ℕ → List (Dispatch E.World) → Type 0)
    → ((n : ℕ) (ds : List (Dispatch E.World)) (d : Dispatch E.World)
        → Stands E O d.call.name d.tool
        → Allowed d.call d.started
        → P n ds
        → P n (ds ++ (d ∷ [])))
    → Lasting E O Allowed (λ r. P r.streams r.dispatched)
unfolding settle dispatched_call
Lasting-calls E O Allowed P runs = record {
  frame = record {
    sends = record { world = λ s w h. h; calm = λ s w e q h. h; row = λ s m q h. h };
    talk = λ s ms h. h;
    meter = λ s u f h. h;
    text = λ s t h. h;
    runs = λ s t c st a h.
        runs s.streams s.dispatched (record { tool = t; call = c; started = s.world }) st a h;
  };
  settles = λ s h. h;
  sends = record { world = λ s w h. h; calm = λ s w e q h. h; row = λ s m q h. h };
  ends = λ s w e h. h;
  spends = λ s w ns h. h;
}

-- A run of the loop comes to an end, and calls the model at most `max_tool_iterations` times, whatever
-- tools the model asks for.
pub run_loop-streams :
    (E : Env) (O : HarnessOptions) (ctx : TurnCtx) (prep : PreparedTurn) (r : Run E.World)
    → let (o, r') = run_loop E O ctx prep r in
      After (λ s. s.streams ≤ r.streams + O.max_tool_iterations) o r'
unfolding open_stream
run_loop-streams E O ctx prep r =
    let most = r.streams + O.max_tool_iterations in
    (Ensures-lasting O prep
        (λ i.
          Lasting-calls E O (λ _ _. Unit {0}) (λ n _. (n ≤ r.streams + i) × (n ≤ most))
            (λ n ds d st a h. h))
        (Lasting-calls E O (λ _ _. Unit {0}) (λ n _. n ≤ most) (λ n ds d st a h. h))
        (λ i s b h. (omega arith, omega arith)) (λ i s h. (omega arith, h.1)) (λ i s h. h.1) ctx
        (λ c c' w e. tt)).at
      r (omega arith, omega arith)

-- What the approval gate answers, as the loop takes it.
unfoldable pub gated : GateResult → Gated
gated (passes c) = goes c
gated (blocked reason p) = blocks reason (some p)

-- A call that the gate may let through: every tool that its name stands for and that is effectful is granted.
abbrev Granted : List Tool → Option (ℕ → Bool) → TurnCtx → ToolCall → Type 0
Granted tools missions ctx c =
    (t : Tool) → get_tool tools c.name ≡ some t → t.effectful ≡ true → granted missions ctx ≡ true

and_true : (a b : Bool) → (a && b) ≡ true → (a ≡ true) × (b ≡ true)
and_true true b h = (refl, h)
and_true false b h = absurd cc

goes_inj : (c c' : ToolCall) → goes c ≡ goes c' → c ≡ c'
goes_inj c c' h = cc

gate_allows :
    (tools : List Tool) (missions : Option (ℕ → Bool)) (c c' : ToolCall) (ctx : TurnCtx) (db : Db)
    → gated (approval_gate tools missions c ctx db).0 ≡ goes c'
    → Granted tools missions ctx c'
unfolding gated approval_gate hold
gate_allows tools missions c c' ctx db h t e is = elim (Option-cases (get_tool tools c.name)) [
  | inl n ↦ let same = goes_inj c c' (rw (n, gated, approval_gate) at h) in cc
  | inr (u, n) ↦ elim (Bool-cases (granted missions ctx)) [
    | inl g ↦ g
    | inr g ↦ elim (Bool-cases u.effectful) [
      | inl f ↦ let clash = rw (n, f, g, gated, approval_gate) at h in cc
      | inr f ↦ let same = goes_inj c c' (rw (n, f, gated, approval_gate) at h) in cc
    ]
  ]
]

-- The turn is driven by a mission, and the gate's read of it answers that it is active.
abbrev pub DrivenBy : Option (ℕ → Bool) → TurnCtx → Type 0
DrivenBy missions ctx =
    (is_active : (ℕ → Bool)) × (id : ℕ) × (missions ≡ some is_active)
    × (ctx.from_mission ≡ true)
    × (ctx.mission_id ≡ some id)
    × (is_active id ≡ true)

granted-DrivenBy :
    (missions : Option (ℕ → Bool)) (ctx : TurnCtx)
    → granted missions ctx ≡ true
    → DrivenBy missions ctx
unfolding granted
granted-DrivenBy none ctx h = absurd cc
granted-DrivenBy (some is_active) ctx h = elim (Option-cases ctx.mission_id) [
  | inl n ↦ let clash = rw n at h in absurd cc
  | inr (id, n) ↦
      let both = rw n at h in
      let (from, is) = and_true ctx.from_mission (is_active id) both in
      (is_active, id, refl, from, n, is)
]

-- A run of a tool that is effectful only in a turn that an active mission drives: `missions` tells
-- what the gate's read of the missions answers in each world, where there is such a read.
abbrev pub Authorised : {W : Type 0} → (W → Option (ℕ → Bool)) → TurnCtx → Dispatch W → Type 0
Authorised missions ctx d = d.tool.effectful ≡ true → DrivenBy (missions d.started) ctx

-- In a turn whose gate is the approval gate over `tools`, and where every effectful tool of the
-- registries that the turn may dispatch from, the static one and all that the resolver answers, has an
-- effectful tool of its name in `tools`, each run of a tool, unless it was made before, is of a tool
-- that is not effectful or starts in a world in which the gate's read answers that the mission that
-- drives the turn is active, whatever the model asks for and however missions start and stop in between.
pub run_loop-Granted :
    (E : Env) (O : HarnessOptions) (ctx : TurnCtx) (prep : PreparedTurn) (r : Run E.World)
    (tools : List Tool) (missions : E.World → Option (ℕ → Bool)) (db : E.World → Db)
    → ((c : ToolCall) (w : E.World)
        → let (g, w') = E.before_tool_call c ctx w in
          g ≡ gated (approval_gate tools (missions w') c ctx (db w)).0)
    → ((name : Text) (t : Tool)
        → Stands E O name t
        → t.effectful ≡ true
        → (held : Tool) × (get_tool tools name ≡ some held) × (held.effectful ≡ true))
    → All (Authorised missions ctx) r.dispatched
    → let (o, r') = run_loop E O ctx prep r in
      After (λ s. All (Authorised missions ctx) s.dispatched) o r'
unfolding open_stream
run_loop-Granted E O ctx prep r tools missions db gate covers h =
    let calls =
      Lasting-calls E O (λ c w. Granted tools (missions w) ctx c)
        (λ _ ds. All (Authorised missions ctx) ds)
        (λ n ds d st a k. All-append (Authorised missions ctx) ds (d ∷ []) k (
          λ is.
              let (held, found, effects) = covers d.call.name d.tool st is in
              granted-DrivenBy (missions d.started) ctx (a held found effects),
          tt,
        )) in
    (Ensures-lasting O prep (λ _. calls) calls (λ i s b k. k) (λ i s k. k) (λ i s k. k) ctx
        (λ c c' w e.
          let w' = (E.before_tool_call c ctx w).1 in
          gate_allows tools (missions w') c c' ctx (db w) (sym (gate c w) ∙ e))).at
      r h
