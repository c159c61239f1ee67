-- ===== src/Agent/Calling.antt =====
-- A language model that never asks for an empty list of tool calls, and the history of the agent of
-- src/agent.rs.
use pgmoneta_mcp.Prelude.{ℕ, zero, suc, ◌≡◌, ◌≢◌, refl, some, List, [], ◌∷◌, ◌++◌, All, All-append}
use pgmoneta_mcp.Bytes.{Bytes}
use pgmoneta_mcp.Result.{Result, ok, err}
use pgmoneta_mcp.Llm.{
  ToolCall, ChatMessage, ToolDefinition, LlmResponse, text, tool_calls, user, assistant,
  assistant_tool_calls, tool_result,
}
use pgmoneta_mcp.Agent.{
  Parties, Agent, shown, execute_tool_call, execute_all, respond, rounds, prompt,
}

-- A message that asks for tool calls asks for some.
abbrev pub IsCalling : {Value : Type 0} → ChatMessage Value → Type 0
IsCalling m = m.tool_calls ≢ some []

module _ {Value E : Type 0} (parties : Parties Value E) where
  abbrev pub AlwaysCalls : Type 0
  AlwaysCalls =
      (messages : List (ChatMessage Value)) (tools : List (ToolDefinition Value)) (e : E)
      (calls : List (ToolCall Value))
      → (parties.chat messages tools e).0 ≡ ok (tool_calls calls)
      → calls ≢ []

  added :
      (history : List (ChatMessage Value)) (m : ChatMessage Value)
      → All IsCalling history
      → IsCalling m
      → All IsCalling (history ++ m ∷ [])
  added history m h k = All-append IsCalling history (m ∷ []) h (k, tt)

  execute_all-IsCalling :
      (calls : List (ToolCall Value)) (history : List (ChatMessage Value)) (e : E)
      → All IsCalling history
      → All IsCalling (execute_all parties calls history e).0
  unfolding execute_all
  execute_all-IsCalling [] history e h = h
  execute_all-IsCalling (call ∷ calls) history e h =
      let (executed, e') = execute_tool_call parties call e in
      execute_all-IsCalling calls (history ++ tool_result call.name (shown call.name executed) ∷ [])
        e' (added history (tool_result call.name (shown call.name executed)) h (λ x. cc))

  module _ (tools : List (ToolDefinition Value)) (max : ℕ) where
    abbrev KeepsCalling :
        (List (ChatMessage Value) → E → Result Bytes × List (ChatMessage Value) × E) → Type 0
    KeepsCalling loop =
        (history : List (ChatMessage Value)) (e : E)
        → All IsCalling history
        → All IsCalling (loop history e).1

    respond-KeepsCalling :
        (again : List (ChatMessage Value) → E → Result Bytes × List (ChatMessage Value) × E)
        (r : Result (LlmResponse Value))
        → ((calls : List (ToolCall Value)) → r ≡ ok (tool_calls calls) → calls ≢ [])
        → KeepsCalling again
        → KeepsCalling (respond parties tools max again r)
    unfolding respond
    respond-KeepsCalling again (err x) nonempty k history e h = h
    respond-KeepsCalling again (ok (text t)) nonempty k history e h =
        added history (assistant t) h (λ x. cc)
    respond-KeepsCalling again (ok (tool_calls calls)) nonempty k history e h =
        let history' = history ++ assistant_tool_calls calls ∷ [] in
        let (_, e') = execute_all parties calls history' e in
        k (execute_all parties calls history' e).0 e' (
          execute_all-IsCalling calls history' e
            (added history (assistant_tool_calls calls) h (λ x. nonempty calls refl (cc))))

    rounds-KeepsCalling : AlwaysCalls → (n : ℕ) → KeepsCalling (rounds parties tools max n)
    unfolding rounds
    rounds-KeepsCalling always zero history e h = h
    rounds-KeepsCalling always (suc n) history e h =
        let (r, e') = parties.chat history tools e in
        respond-KeepsCalling (rounds parties tools max n) r (always history tools e)
          (rounds-KeepsCalling always n) history e' h

  pub prompt-AlwaysCalls :
      AlwaysCalls
      → (agent : Agent Value) (user_input : Bytes) (e : E) → All IsCalling agent.history
      → All IsCalling (prompt parties agent user_input e).1.history
  unfolding prompt
  prompt-AlwaysCalls always agent user_input e h =
      rounds-KeepsCalling agent.tools agent.max_tool_rounds always agent.max_tool_rounds
        (agent.history ++ user user_input ∷ []) e
        (added agent.history (user user_input) h (λ x. cc))
