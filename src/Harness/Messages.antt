-- ===== src/Harness/Messages.antt =====
-- packages/core/src/usage.ts, the messages of llm/gateway.ts, the hooks' results of hooks.ts, and the
-- transcript rows and stream events of packages/shared/src/contracts.ts that a turn writes and sends.
use cobble_companion.Base.{
  ℕ, ◌+◌, ◌/◌, Bool, false, ◌&&◌, ◌||◌, Option, List, [], ◌∷◌, ◌++◌, ◌==◌, if◌then◌else◌, Text,
  length,
}
use cobble_companion.Approvals.Store.{ProposalRow}
use cobble_companion.Approvals.Gate.{ToolCall}

pub record TokenUsage : Type 0 where
  pub prompt_tokens : ℕ
  pub completion_tokens : ℕ
  pub total_tokens : ℕ

abbrev pub zero_usage : TokenUsage
zero_usage = record { prompt_tokens = 0; completion_tokens = 0; total_tokens = 0 }

unfoldable pub add_usage : TokenUsage → TokenUsage → TokenUsage
add_usage a b = record {
  prompt_tokens = a.prompt_tokens + b.prompt_tokens;
  completion_tokens = a.completion_tokens + b.completion_tokens;
  total_tokens = a.total_tokens + b.total_tokens;
}

-- A quarter of the length, rounded up.
unfoldable pub estimate_tokens : Text → ℕ
estimate_tokens text = (length text + 3) / 4

unfoldable pub estimate_usage : Text → Text → TokenUsage
unfolding estimate_tokens
estimate_usage prompt completion = record {
  prompt_tokens = estimate_tokens prompt;
  completion_tokens = estimate_tokens completion;
  total_tokens = estimate_tokens prompt + estimate_tokens completion;
}

pub data LlmRole : Type 0 where
  role_system role_user role_assistant role_tool : LlmRole

pub record LlmMessage : Type 0 where
  pub role : LlmRole
  pub content : Text
  pub tool_call_id : Option Text
  pub tool_calls : List ToolCall

-- The contents, joined by line feeds.
unfoldable pub prompt_text : List LlmMessage → Text
prompt_text [] = []
prompt_text (m ∷ []) = m.content
prompt_text (m ∷ n ∷ ms) = m.content ++ (10 ∷ prompt_text (n ∷ ms))

-- The companion and the titles of a source are left out.
pub record Citation : Type 0 where
  pub source_id : ℕ
  pub para_start : ℕ
  pub para_end : ℕ

-- Whether two citations have one key. The key joins the source's id, which is a UUID, and the two
-- numbers by `:` and `-`, so that two keys are equal only where the three parts are.
unfoldable pub same_key : Citation → Citation → Bool
same_key a b =
    (a.source_id == b.source_id) && ((a.para_start == b.para_start) && (a.para_end == b.para_end))

-- Whether a citation's key is among those of others.
unfoldable pub key_among : Citation → List Citation → Bool
unfolding same_key
key_among c [] = false
key_among c (d ∷ ds) = same_key c d || key_among c ds

-- The filter of `dedupeCitations`, with the citations that it has let through.
unfoldable pub dedupe_from : List Citation → List Citation → List Citation
unfolding key_among
dedupe_from seen [] = []
dedupe_from seen (c ∷ cs) =
    let skipped = dedupe_from seen cs in
    let kept = dedupe_from (c ∷ seen) cs in if key_among c seen then skipped else c ∷ kept

unfoldable pub dedupe_citations : List Citation → List Citation
unfolding dedupe_from
dedupe_citations = dedupe_from []

pub record ContextBlock : Type 0 where
  pub role : LlmRole
  pub content : Text
  pub provenance : List Citation

pub record RetrieveResult : Type 0 where
  pub blocks : List ContextBlock
  pub usage : TokenUsage

unfoldable pub all_provenance : List ContextBlock → List Citation
all_provenance [] = []
all_provenance (b ∷ bs) = b.provenance ++ all_provenance bs

-- `MessageKind`, with what the metadata of that kind holds.
pub data MessageKind : Type 0 where
  message : List Citation → MessageKind
  tool_step : Text → MessageKind
  proposal : ℕ → Text → MessageKind

pub data MessageRole : Type 0 where
  from_user from_assistant : MessageRole

-- What `appendMessage` is given.
pub record Draft : Type 0 where
  pub role : MessageRole
  pub content : Text
  pub kind : MessageKind

pub record Message : Type 0 where
  pub id : ℕ
  pub draft : Draft

pub data ChatStreamEvent : Type 0 where
  citations : List Citation → ChatStreamEvent
  token : Text → ChatStreamEvent
  step : Message → ChatStreamEvent
  proposed : ProposalRow → ChatStreamEvent
  done : Message → ChatStreamEvent
  failed : ChatStreamEvent

-- How a stream of the model ends: with its result, or by a provider's fault.
pub data StreamEnd : Type 0 where
  finishes : TokenUsage → List ToolCall → StreamEnd
  faults : StreamEnd

pub record Streamed : Type 0 where
  pub chunks : List Text
  pub ending : StreamEnd

-- A call to run, a held one with its reason, or a hook that throws.
pub data Gated : Type 0 where
  goes : ToolCall → Gated
  blocks : Text → Option ProposalRow → Gated
  gate_throws : Gated

pub data LeaseRead : Type 0 where
  held lost unreadable : LeaseRead
