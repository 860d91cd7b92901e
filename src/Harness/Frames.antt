-- ===== src/Harness/Frames.antt =====
-- What every part of an iteration before its end leaves true: the conditions on a predicate, one for
-- each change of state that those parts make.
use cobble_companion.Base.{
  ℕ, ◌≡◌, refl, Bool, true, false, ◌||◌, Option, none, some, ap, ◌⊎◌, inl, inr, Bool-cases, List,
  [], ◌∷◌, ◌++◌, if◌then◌else◌, Text,
}
use cobble_companion.Approvals.Tools.{Tool, ToolResult, get_tool}
use cobble_companion.Approvals.Gate.{ToolCall, TurnCtx}
use cobble_companion.Harness.Messages.{
  TokenUsage, LlmMessage, MessageKind, message, tool_step, proposal, from_user, from_assistant,
  Draft, Message, ChatStreamEvent, citations, token, step, proposed, done, failed, Gated, goes,
  blocks, gate_throws,
}
use cobble_companion.Harness.Effects.{
  Env, HarnessOptions, Run, Outcome, value, dropped, Prog, pure, throw, modify, ◌>>=◌, ask, emit,
  record_row, append_message,
}
use cobble_companion.Harness.Turn.{
  assistant_draft, Held, Walked, or_registry, push_message, stood_down, resolve_turn_registry,
  record_tool_step,
}
use cobble_companion.Harness.Loop.{
  dispatched_call, dispatch_to, dispatch, note_step, run_call, walk_call,
}
use cobble_companion.Harness.Rules.{
  Ensures, Ensures-bind, After, Keeps, Keeps-pure, Keeps-bind, Keeps-attempt, keeps_rules,
}

-- The events that end the stream of a turn.
unfoldable pub is_terminal : ChatStreamEvent → Bool
is_terminal (done _) = true
is_terminal failed = true
is_terminal (citations _) = false
is_terminal (token _) = false
is_terminal (step _) = false
is_terminal (proposed _) = false

unfoldable pub is_step_kind : MessageKind → Bool
is_step_kind (tool_step _) = true
is_step_kind (message _) = false
is_step_kind (proposal _ _) = false

-- A message of the user's own, or the note of a look-up: no reply and no held action.
unfoldable pub is_minor : Message → Bool
unfolding is_step_kind
is_minor m = elim m.draft.role [ from_user ↦ true | from_assistant ↦ is_step_kind m.draft.kind ]

-- `P` is kept by the calls of the world, by events that end nothing and by new rows: minor ones, or
-- where `noisy` all.
pub record Sends (E : Env) (noisy : Bool) (P : Run E.World → Type 0) : Type 0 where
  pub world : (r : Run E.World) (w : E.World) → P r → P (record r { world = w })
  pub calm :
      (r : Run E.World) (w : E.World) (e : ChatStreamEvent)
      → is_terminal e ≡ false
      → P r
      → P (record r { world = w; events = r.events ++ (e ∷ []) })
  pub row :
      (r : Run E.World) (m : Message)
      → (noisy || is_minor m) ≡ true
      → P r
      → P (record r { rows = r.rows ++ (m ∷ []) })

-- The static registry of a turn, or one that the resolver answers.
abbrev pub Resolved : Env → HarnessOptions → List Tool → Type 0
Resolved E O registry =
    (registry ≡ O.registry) ⊎ ((w : E.World) × ((E.resolve_registry w).0 ≡ some registry))

-- A tool that a turn may find under a name: in its static registry, or in one that it resolves.
abbrev pub Stands : Env → HarnessOptions → Text → Tool → Type 0
Stands E O name t =
    (registry : List Tool) × (Resolved E O registry) × (get_tool registry name ≡ some t)

pub record Frame (E : Env) (O : HarnessOptions) (Allowed : ToolCall → E.World → Type 0)
    (P : Run E.World → Type 0) : Type 0 where
  pub sends : Sends E false P
  pub talk : (r : Run E.World) (ms : List LlmMessage) → P r → P (record r { messages = ms })
  pub meter :
      (r : Run E.World) (u : TokenUsage) (f : Option Text)
      → P r
      → P (record r { usage = u; in_flight = f })
  pub text : (r : Run E.World) (t : Text) → P r → P (record r { last_text = t })
  pub runs :
      (r : Run E.World) (t : Tool) (c : ToolCall)
      → Stands E O c.name t
      → Allowed c r.world
      → P r
      → P (dispatched_call t c r)

-- The gate lets through only what is allowed in the world that it leaves, in the turn `ctx`.
abbrev pub Gates : (E : Env) → TurnCtx → (ToolCall → E.World → Type 0) → Type 0
Gates E ctx Allowed =
    (c c' : ToolCall) (w : E.World)
    → (E.before_tool_call c ctx w).0 ≡ goes c'
    → Allowed c' (E.before_tool_call c ctx w).1

resumes_or_drops :
    {W : Type 0} (P : Run W → Type 0) (b : Bool) (r : Run W)
    → P r
    → After {A = Unit {0}} P (if b then value tt else dropped) r
resumes_or_drops P true r h = h
resumes_or_drops P false r h = h

module _ {E : Env} {noisy : Bool} {P : Run E.World → Type 0} (S : Sends E noisy P) where
  pub Keeps-ask : {A : Type 0} (f : E.World → A × E.World) → Keeps P (ask f)
  unfolding ask
  Keeps-ask f = record { at = λ r h. S.world r _ h }

  pub Keeps-emit : (e : ChatStreamEvent) → is_terminal e ≡ false → Keeps P (emit E e)
  unfolding emit
  Keeps-emit e q = record { at = λ r h. resumes_or_drops P _ _ (S.calm r _ e q h) }

  Keeps-record_row :
      (id : Option ℕ) (d : Draft)
      → (noisy || is_minor (record { id = 0; draft = d })) ≡ true
      → Keeps P (record_row E id d)
  unfolding record_row is_minor
  Keeps-record_row none d q = record { at = λ r h. h }
  Keeps-record_row (some id) d q = record {
    at = λ r h. S.row r (record { id = id; draft = d }) q h;
  }

  pub Keeps-append_message :
      (d : Draft)
      → (noisy || is_minor (record { id = 0; draft = d })) ≡ true
      → Keeps P (append_message E d)
  unfolding append_message
  Keeps-append_message d q = search (keeps_rules, Keeps-ask, Keeps-record_row)

module _ {E : Env} {O : HarnessOptions} {Allowed : ToolCall → E.World → Type 0}
    {P : Run E.World → Type 0} (F : Frame E O Allowed P) where
  pub Keeps-stood_down : Keeps P (stood_down E O)
  unfolding stood_down
  Keeps-stood_down = search (keeps_rules, Keeps-ask F.sends)

  -- The registry of a step, and what follows it.
  pub Ensures-resolve_turn_registry :
      {A : Type 0} {Q : Outcome A → Run E.World → Type 0} (f : List Tool → Prog E.World A)
      → ((registry : List Tool) → Resolved E O registry → Ensures P (f registry) Q)
      → Ensures P (resolve_turn_registry E O >>= f) Q
  unfolding resolve_turn_registry ◌>>=◌ pure ask or_registry
  Ensures-resolve_turn_registry {A = A} {Q = Q} f h = record {
    at = λ r p. elim (Bool-cases O.resolving) [
      | inr off ↦ rw off ((h O.registry (inl refl)).at r p)
      | inl on ↦ rw on (answered r.world (E.resolve_registry r.world) refl r p)
    ];
  }
    where
      answered :
          (w : E.World) (a : Option (List Tool) × E.World)
          → E.resolve_registry w ≡ a
          → (r : Run E.World) → P r
          → let end = f (or_registry a.0 O.registry) (record r { world = a.1 }) in Q end.0 end.1
      answered w (none, w') e r p = (h O.registry (inl refl)).at _ (F.sends.world r w' p)
      answered w (some registry, w') e r p =
          (h registry (inr (w, ap (λ (x : Option (List Tool) × E.World). x.0) e))).at _
            (F.sends.world r w' p)

  pub Keeps-record_tool_step :
      (registry : List Tool) (name args : Text) → Keeps P (record_tool_step E O registry name args)
  unfolding record_tool_step is_minor is_step_kind assistant_draft
  Keeps-record_tool_step registry name args =
      Keeps-bind _ _ (Keeps-attempt _ (Keeps-append_message F.sends _ refl)) emitted
    where
      emitted :
          (row : Option Message) → Keeps P (elim row [ none ↦ pure tt | some m ↦ emit E (step m) ])
      emitted none = Keeps-pure tt
      emitted (some m) = Keeps-emit F.sends (step m) (unfold is_terminal in refl)

  pub Keeps-note_step :
      (registry : List Tool) (c : ToolCall) (result : ToolResult)
      → Keeps P (note_step E O registry c result)
  unfolding note_step
  Keeps-note_step registry c result = search (keeps_rules, Keeps-stood_down, Keeps-record_tool_step)

  -- The predicate, and a call that is allowed now.
  abbrev pub Before : ToolCall → Run E.World → Type 0
  Before c r = P r × Allowed c r.world

  Ensures-dispatch_to :
      (t : Option Tool) (c : ToolCall) (ctx : TurnCtx) (id : Option Text)
      → ((tool : Tool) → t ≡ some tool → Stands E O c.name tool)
      → Ensures (Before c) (dispatch_to E O t c ctx id) (After P)
  unfolding dispatch_to pure modify ◌>>=◌ ask
  Ensures-dispatch_to none c ctx id s = record { at = λ r h. h.0 }
  Ensures-dispatch_to (some t) c ctx id s = record {
    at = λ r h. F.sends.world _ _ (F.runs r t c (s t refl) h.1 h.0);
  }

  Ensures-run_call :
      (registry : List Tool) (c : ToolCall) (ctx : TurnCtx) (id : Option Text)
      → Resolved E O registry
      → Ensures (Before c) (run_call E O registry c ctx id) (After P)
  unfolding run_call push_message dispatch
  Ensures-run_call registry c ctx id known =
      Ensures-bind _ _
        (Ensures-dispatch_to (get_tool registry c.name) c ctx id (λ t e. (registry, known, e)))
        (λ result. search (keeps_rules, Keeps-ask F.sends, Keeps-note_step, F.talk) depth 9)
        (λ s h. h) (λ s h. h)

  -- An answer of the gate that goes on to the rest of the walk.
  pub Ensures-walk_call :
      (g : Gated) (registry : List Tool) (ctx : TurnCtx) (id : Option Text)
      (rest : Held → Prog E.World Walked) (h : Held)
      → Resolved E O registry
      → ((k : Held) → Keeps P (rest k))
      → Ensures
          (λ r. P r × ((c : ToolCall) → g ≡ goes c → Allowed c r.world))
          (walk_call E O g registry ctx id rest h)
          (After P)
  unfolding walk_call throw
  Ensures-walk_call gate_throws registry ctx id rest h known k = record { at = λ r p. p.0 }
  Ensures-walk_call (blocks reason q) registry ctx id rest h known k = record {
    at = λ r p. (k _).at r p.0;
  }
  Ensures-walk_call (goes c) registry ctx id rest h known k =
      let ran : Ensures (Before c) (walk_call E O (goes c) registry ctx id rest h) (After P) =
        Ensures-bind _ _ (Ensures-run_call registry c ctx id known)
          (λ stale. search (keeps_rules, k)) (λ s h. h) (λ s h. h) in
      record { at = λ r p. ran.at r (p.0, p.1 c refl) }
