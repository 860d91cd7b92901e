-- ===== src/Harness/Turn.antt =====
-- packages/core/src/harness/harness.ts, with the metering of packages/core/src/usage.ts. Logging and
-- tracing are left out.
use cobble_companion.Base.{
  ℕ, suc, Bool, true, false, ◌||◌, ◌&&◌, Option, none, some, List, [], ◌∷◌, ◌++◌, leb, ltb,
  if◌then◌else◌, Text, codes, trim, is_empty,
}
use cobble_companion.Approvals.Tools.{Tool, get_tool, tool_step_summary}
use cobble_companion.Approvals.Store.{ProposalRow}
use cobble_companion.Harness.Messages.{
  TokenUsage, add_usage, LlmMessage, Citation, MessageKind, message, tool_step, proposal,
  from_assistant, Draft, Message, step, proposed, done, failed, LeaseRead, held, lost, unreadable,
}
use cobble_companion.Harness.Effects.{
  Env, HarnessOptions, Run, Prog, pure, ask, modify, ◌>>=◌, ◌>>◌, catch, emit, append_message,
}

abbrev pub partial_fallback : Text
partial_fallback =
    codes "I ran out of room to finish that just now — tell me how you’d like me to continue."

abbrev pub held_turn_fallback : Text
held_turn_fallback = codes "I’ve set that aside for you to confirm."

unfoldable pub is_lost : LeaseRead → Bool
is_lost lost = true
is_lost held = false
is_lost unreadable = false

unfoldable pub or_registry : Option (List Tool) → List Tool → List Tool
or_registry (some r) s = r
or_registry none s = s

unfoldable pub over_budget : Option ℕ → ℕ → Bool
over_budget none used = false
over_budget (some budget) used = leb budget used

unfoldable pub or_text : Text → Text → Text
or_text [] t = t
or_text (x ∷ xs) t = x ∷ xs

unfoldable pub or_message : Option Message → Option Message → Option Message
or_message (some m) n = some m
or_message none n = n

-- A row of the companion.
unfoldable pub assistant_draft : Text → MessageKind → Draft
assistant_draft text kind = record { role = from_assistant; content = text; kind = kind }

-- What the walk over a turn's calls holds back.
pub record Held : Type 0 where
  pub proposals : List ProposalRow
  pub is_blocked : Bool
  pub reason : Text

abbrev pub nothing_held : Held
nothing_held = record { proposals = []; is_blocked = false; reason = [] }

unfoldable pub hold_back : Text → Option ProposalRow → Held → Held
unfolding or_text
hold_back reason (some p) h = record h { is_blocked = true; proposals = h.proposals ++ (p ∷ []) }
hold_back reason none h = record h { is_blocked = true; reason = or_text h.reason reason }

unfoldable pub first_summary : List ProposalRow → Text
first_summary [] = []
first_summary (p ∷ _) = p.summary

pub data Walked : Type 0 where
  walk_superseded : Walked
  walked : Held → Walked

-- How one iteration ends.
pub data Next : Type 0 where
  superseded replied again : Next

pub record PreparedTurn : Type 0 where
  pub turn_citations : List Citation
  pub retrieval_usage : TokenUsage

-- try { … } catch { log }
unfoldable pub attempt : {W A : Type 0} → Prog W A → Prog W (Option A)
unfolding ◌>>=◌ pure catch
attempt m = catch (do a ← m; pure (some a)) (pure none)

unfoldable pub push_message : {W : Type 0} → LlmMessage → Run W → Run W
push_message m r = record r { messages = r.messages ++ (m ∷ []) }

unfoldable pub deposit : {W : Type 0} → TokenUsage → Run W → Run W
unfolding add_usage
deposit u r = record r { usage = add_usage r.usage u; in_flight = none }

unfoldable pub settle : {W : Type 0} → Run W → Run W
settle r = record r { settled = true }

unfoldable pub open_stream : {W : Type 0} → Run W → Run W
open_stream r = record r { streams = suc r.streams; in_flight = some [] }

module _ (E : Env) (O : HarnessOptions) where
  abbrev M : Type 0 → Type 0
  M A = Prog E.World A

  -- `leaseLost` and `stoodDown`
  unfoldable pub stood_down : M Bool
  unfolding ask ◌>>=◌ pure is_lost
  stood_down = if O.fenced then (do l ← ask E.holds_lease; pure (is_lost l)) else pure false

  unfoldable pub resolve_turn_registry : M (List Tool)
  unfolding ask ◌>>=◌ pure or_registry
  resolve_turn_registry =
      if O.resolving
      then (do r ← ask E.resolve_registry; pure (or_registry r O.registry))
      else pure O.registry

  unfoldable pub exhausted : ℕ → TokenUsage → Bool
  unfolding over_budget
  exhausted iteration used =
      leb O.max_tool_iterations iteration || over_budget O.turn_token_budget used.total_tokens

  -- The wallet is debited of what was spent, where there is one and something was. A debit that fails is
  -- logged only; `spends` records that it was asked for.
  unfoldable pub debit : TokenUsage → Run E.World → Run E.World
  debit u r =
      if O.metered && ltb 0 u.total_tokens
      then record r {
        world = (E.spend u.total_tokens r.world).1;
        spends = r.spends ++ (u.total_tokens ∷ []);
      }
      else r

  -- The debit of the run: the retrieval and the calls of the model.
  unfoldable pub debit_run : TokenUsage → Run E.World → Run E.World
  unfolding debit add_usage
  debit_run retrieval r = debit (add_usage retrieval r.usage) r

  unfoldable pub finish : Text → List Citation → TokenUsage → M (Unit {0})
  unfolding ◌>>=◌ append_message modify debit_run emit assistant_draft
  finish text cs retrieval = do
    m ← append_message E (assistant_draft text (message cs))
    modify (debit_run retrieval)
    emit E (done m)

  unfoldable pub record_tool_step : List Tool → Text → Text → M (Unit {0})
  unfolding ◌>>=◌ append_message emit attempt pure assistant_draft tool_step_summary
  record_tool_step registry name args =
      let summary : Text = elim (get_tool registry name) [
        | some t ↦ tool_step_summary t args
        | none ↦ codes "Used " ++ (name ++ codes ".")
      ] in
      do
        row ← attempt (append_message E (assistant_draft summary (tool_step name)))
        elim row [ none ↦ pure tt | some m ↦ emit E (step m) ]

  -- The rows and events of the held proposals, and the last row that was written.
  unfoldable pub propose_all : List ProposalRow → Option Message → M (Option Message)
  unfolding ◌>>=◌ append_message emit attempt pure assistant_draft or_message
  propose_all [] last = pure last
  propose_all (p ∷ ps) last = do
    row ← attempt (append_message E (assistant_draft p.summary (proposal p.id p.tool_name)))
    emit E (proposed p)
    propose_all ps (or_message row last)

  unfoldable pub preamble : Text → List Citation → M (Option Message)
  unfolding ◌>>=◌ append_message pure assistant_draft trim is_empty
  preamble text cs =
      if is_empty (trim text)
      then pure none
      else (do m ← append_message E (assistant_draft text (message cs)); pure (some m))

  -- The terminal event of a held turn.
  unfoldable pub end_held : Option Message → Text → List ProposalRow → M (Unit {0})
  unfolding ◌>>=◌ append_message emit attempt pure assistant_draft or_text first_summary
  end_held (some m) reason ps = emit E (done m)
  end_held none reason ps =
      let text = or_text (or_text reason (first_summary ps)) held_turn_fallback in
      do
        row ← attempt (append_message E (assistant_draft text (message [])))
        elim row [ none ↦ emit E failed | some m ↦ emit E (done m) ]

  unfoldable pub finish_blocked : Text → Held → List Citation → TokenUsage → M (Unit {0})
  unfolding ◌>>=◌ preamble propose_all modify debit_run end_held or_message
  finish_blocked text h cs retrieval = do
    spoken ← preamble text cs
    last ← propose_all h.proposals none
    modify (debit_run retrieval)
    end_held (or_message spoken last) h.reason h.proposals
