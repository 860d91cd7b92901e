-- ===== src/Harness/Effects.antt =====
-- The effects of a turn of packages/core/src/harness/harness.ts: a monad over what the turn has sent,
-- written and spent, where an effect throws or the consumer drops the generator at a `yield`.
use cobble_companion.Base.{ℕ, Bool, Option, none, some, List, [], ◌∷◌, ◌++◌, if◌then◌else◌, Text}
use cobble_companion.Approvals.Tools.{Tool, ToolResult, RunOutcome}
use cobble_companion.Approvals.Gate.{ToolCall, TurnCtx}
use cobble_companion.Harness.Messages.{
  TokenUsage, LlmMessage, Draft, Message, ContextBlock, RetrieveResult, ChatStreamEvent, Streamed,
  Gated, LeaseRead,
}

-- What the turn calls: each operation answers in the light of the world and moves it on.
pub record Env : Type 1 where
  pub World : Type 0
  -- whether the consumer asks for more after an event, or drops the generator
  pub resumes : ChatStreamEvent → World → Bool × World
  -- `appendMessage`: the id of the new row, or none where it throws
  pub append : Draft → World → Option ℕ × World
  pub holds_lease : World → LeaseRead × World
  -- `resolveRegistry`: none where it throws
  pub resolve_registry : World → Option (List Tool) × World
  -- `retrieveContext`: none where it throws
  pub retrieve_context : Text → World → Option RetrieveResult × World
  -- `assembleContext`, with the best-effort reads of the mood and the profile
  pub assemble_context : List ContextBlock → World → List LlmMessage × World
  -- `getRecentMessages` for the perception: whether it succeeds
  pub snapshot : World → Bool × World
  pub stream : List LlmMessage → List Tool → World → Streamed × World
  pub before_tool_call : ToolCall → TurnCtx → World → Gated × World
  pub run_tool : Tool → Text → TurnCtx → World → RunOutcome × World
  -- none where the hook throws
  pub after_tool_call : ToolResult → ToolCall → TurnCtx → World → Option ToolResult × World
  -- `quota.spend`: whether it succeeds
  pub spend : ℕ → World → Bool × World

-- `fenced`, `resolving`, `metered` and `perceiving` tell which of the optional parts are given.
pub record HarnessOptions : Type 0 where
  pub registry : List Tool
  pub max_tool_iterations : ℕ
  pub turn_token_budget : Option ℕ
  pub fenced : Bool
  pub resolving : Bool
  pub metered : Bool
  pub perceiving : Bool

-- A run of a tool: the tool, the call that it is for, and the world at its start.
pub record Dispatch (W : Type 0) : Type 0 where
  pub tool : Tool
  pub call : ToolCall
  pub started : W

-- `spends` are the debits that the wallet was asked for, those that failed too. `in_flight` is the text streamed so far of the stream that has not ended; `streams` and
-- `dispatched` record the calls of the model and of the tools, and
-- `perceived` the launches of the post-turn reads.
pub record Run (W : Type 0) : Type 0 where
  pub world : W
  pub events : List ChatStreamEvent
  pub rows : List Message
  pub spends : List ℕ
  pub usage : TokenUsage
  pub messages : List LlmMessage
  pub last_text : Text
  pub in_flight : Option Text
  pub settled : Bool
  pub streams : ℕ
  pub dispatched : List (Dispatch W)
  pub perceived : ℕ

-- `dropped`: the consumer returned the generator.
pub data Outcome {ℓ} (A : Type ℓ) : Type ℓ where
  value : A → Outcome A
  threw dropped out_of_fuel : Outcome A

abbrev pub Prog : Type 0 → Type 0 → Type 0
Prog W A = Run W → Outcome A × Run W

module _ {W A : Type 0} where
  unfoldable pub pure : A → Prog W A
  pure a r = (value a, r)

  unfoldable pub throw : Prog W A
  throw r = (threw, r)

  unfoldable pub exhaust : Prog W A
  exhaust r = (out_of_fuel, r)

  unfoldable pub gets : (Run W → A) → Prog W A
  gets f r = (value (f r), r)

  -- A call to the world that cannot throw.
  unfoldable pub ask : (W → A × W) → Prog W A
  ask f r = let (a, w) = f r.world in (value a, record r { world = w })

  unfoldable pub or_throw : Option A → Prog W A
  or_throw none r = (threw, r)
  or_throw (some a) r = (value a, r)

unfoldable pub modify : {W : Type 0} → (Run W → Run W) → Prog W (Unit {0})
modify f r = (value tt, f r)

module _ {W A B : Type 0} where
  abbrev pub continue : Outcome A → (A → Prog W B) → Prog W B
  continue (value a) f r = f a r
  continue threw f r = (threw, r)
  continue dropped f r = (dropped, r)
  continue out_of_fuel f r = (out_of_fuel, r)

  infixl 5 ◌>>=◌ ◌>>◌
  unfoldable pub ◌>>=◌ : Prog W A → (A → Prog W B) → Prog W B
  ◌>>=◌ m f r = let (o, r') = m r in continue o f r'

  abbrev pub ◌>>◌ : Prog W A → Prog W B → Prog W B
  m >> n = m >>= λ _. n

-- try … catch
abbrev pub caught : {W A : Type 0} → Outcome A → Prog W A → Prog W A
caught threw h r = h r
caught (value a) h r = (value a, r)
caught dropped h r = (dropped, r)
caught out_of_fuel h r = (out_of_fuel, r)

unfoldable pub catch : {W A : Type 0} → Prog W A → Prog W A → Prog W A
catch m h r = let (o, r') = m r in caught o h r'

-- try … finally, where the last part does not throw
unfoldable pub finally : {W A : Type 0} → Prog W A → (Run W → Run W) → Prog W A
finally m f r = let (o, r') = m r in (o, f r')

-- The effects of one environment.
module _ (E : Env) where
  -- yield
  unfoldable pub emit : ChatStreamEvent → Prog E.World (Unit {0})
  emit e r =
      let (goes_on, w) = E.resumes e r.world in
      (if goes_on then value tt else dropped, record r { world = w; events = r.events ++ (e ∷ []) })

  -- The row that a successful append leaves.
  unfoldable pub record_row : Option ℕ → Draft → Prog E.World Message
  record_row none d r = (threw, r)
  record_row (some id) d r =
      let m : Message = record { id = id; draft = d } in
      (value m, record r { rows = r.rows ++ (m ∷ []) })

  unfoldable pub append_message : Draft → Prog E.World Message
  unfolding ask ◌>>=◌ record_row
  append_message d = do id ← ask (E.append d); record_row id d
