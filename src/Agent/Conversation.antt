-- ===== src/Agent/Conversation.antt =====
-- The shape of the history that `Agent::prompt` of src/agent.rs leaves.
use mathlib.Core.Path.{subst}
use pgmoneta_mcp.Prelude.{
  ◌+◌, ◌≤◌, arith, ℕ, zero, suc, ◌≡◌, refl, sym, ap, ◌∙◌, List, [], ◌∷◌, ◌++◌, append_assoc,
  append-nil,
}
use pgmoneta_mcp.Bytes.{Bytes}
use pgmoneta_mcp.Result.{Result, ok, err, Error, exceeded_rounds}
use pgmoneta_mcp.Llm.{
  ToolCall, ChatMessage, ToolDefinition, LlmResponse, text, tool_calls, system, user, assistant,
  assistant_tool_calls, tool_result,
}
use pgmoneta_mcp.Agent.{
  Parties, Agent, new, cleared, clear_history, shown, execute_tool_call, execute_all, respond,
  rounds, prompt,
}

-- One result for each call, in their order and with their names.
pub data Answers {Value : Type 0} : List (ToolCall Value) → List (ChatMessage Value) → Type 0 where
  all_answered : Answers [] []
  answered :
      {call : ToolCall Value} {calls : List (ToolCall Value)} {results : List (ChatMessage Value)}
      (content : Bytes)
      → Answers calls results
      → Answers (call ∷ calls) (tool_result call.name content ∷ results)

-- A number of rounds, each a message with tool calls and behind it their answers.
pub data Turns {Value : Type 0} : ℕ → List (ChatMessage Value) → Type 0 where
  no_turns : Turns 0 []
  turn :
      {n : ℕ} {calls : List (ToolCall Value)} {results messages : List (ChatMessage Value)}
      → Answers calls results
      → Turns n messages
      → Turns (suc n) (assistant_tool_calls calls ∷ results ++ messages)

-- What n rounds to go add to the history, by how they end: the text that is returned comes last,
-- an error of the language model adds nothing, and all rounds are used when they run out.
pub data Ended {Value : Type 0} (max : ℕ)
    : ℕ → Result Bytes → List (ChatMessage Value) → Type 0 where
  replied :
      {n k : ℕ} {messages : List (ChatMessage Value)} (t : Bytes)
      → Turns k messages
      → 1 + k ≤ n
      → Ended max n (ok t) (messages ++ assistant t ∷ [])
  broke :
      {n k : ℕ} {messages : List (ChatMessage Value)} (x : Error)
      → Turns k messages
      → 1 + k ≤ n
      → Ended max n (err x) messages
  ran_out :
      {n : ℕ} {messages : List (ChatMessage Value)}
      → Turns n messages
      → Ended max n (err (exceeded_rounds max)) messages

another :
    {Value : Type 0} {max n : ℕ} {r : Result Bytes} {calls : List (ToolCall Value)}
    {results messages : List (ChatMessage Value)}
    → Answers calls results
    → Ended max n r messages
    → Ended max (suc n) r (assistant_tool_calls calls ∷ results ++ messages)
another {calls = calls} {results = results} a
      (replied {n = n} {k = k} {messages = messages} t turns le) =
    subst (Ended _ _ _)
      (ap (λ x. assistant_tool_calls calls ∷ x) (append_assoc results messages (assistant t ∷ [])))
      (replied t (turn a turns) (omega arith))
another a (broke x turns le) = broke x (turn a turns) (omega arith)
another a (ran_out turns) = ran_out (turn a turns)

module _ {Value E : Type 0} (parties : Parties Value E) where
  -- What a history was extended by.
  execute_all-Answers :
      (calls : List (ToolCall Value)) (history : List (ChatMessage Value)) (e : E)
      → (results : List (ChatMessage Value)) × ((execute_all parties calls history e).0
          ≡ history ++ results)
        × Answers calls results
  unfolding execute_all
  execute_all-Answers [] history e = ([], sym (append-nil history), all_answered)
  execute_all-Answers (call ∷ calls) history e =
      let (executed, e') = execute_tool_call parties call e in
      let result = tool_result call.name (shown call.name executed) in
      let (results, same, a) = execute_all-Answers calls (history ++ result ∷ []) e' in
      (
        result ∷ results,
        same ∙ append_assoc history (result ∷ []) results,
        answered (shown call.name executed) a,
      )

  module _ (tools : List (ToolDefinition Value)) (max : ℕ) where
    abbrev Extends :
        ℕ → (List (ChatMessage Value) → E → Result Bytes × List (ChatMessage Value) × E) → Type 0
    Extends n loop =
        (history : List (ChatMessage Value)) (e : E)
        → (messages : List (ChatMessage Value)) × ((loop history e).1 ≡ history ++ messages)
          × Ended max n (loop history e).0 messages

    respond-Extends :
        (n : ℕ) (again : List (ChatMessage Value) → E → Result Bytes × List (ChatMessage Value) × E)
        (r : Result (LlmResponse Value))
        → Extends n again
        → Extends (suc n) (respond parties tools max again r)
    unfolding respond
    respond-Extends n again (err x) h history e =
        ([], sym (append-nil history), broke x no_turns (omega arith))
    respond-Extends n again (ok (text t)) h history e =
        (assistant t ∷ [], refl, replied t no_turns (omega arith))
    respond-Extends n again (ok (tool_calls calls)) h history e =
        let (results, same, a) =
          execute_all-Answers calls (history ++ assistant_tool_calls calls ∷ []) e in
        let (_, e') = execute_all parties calls (history ++ assistant_tool_calls calls ∷ []) e in
        let (messages, grown, ended) =
          h (execute_all parties calls (history ++ assistant_tool_calls calls ∷ []) e).0 e' in
        (
          assistant_tool_calls calls ∷ results ++ messages,
          (grown
              ∙ ap (λ x. x ++ messages) same
              ∙ append_assoc (history ++ assistant_tool_calls calls ∷ []) results messages
              ∙ append_assoc history (assistant_tool_calls calls ∷ []) (results ++ messages)),
          another a ended,
        )

    rounds-Extends : (n : ℕ) → Extends n (rounds parties tools max n)
    unfolding rounds
    rounds-Extends zero history e = ([], sym (append-nil history), ran_out no_turns)
    rounds-Extends (suc n) history e =
        let (r, e') = parties.chat history tools e in
        respond-Extends n (rounds parties tools max n) r (rounds-Extends n) history e'

  -- A prompt only adds to the history: the user's message, then at most `max_tool_rounds` rounds of
  -- tool calls, each followed by one result for each of its calls, in the same order, and last the
  -- text that the prompt returns, if it returns one; without a text the rounds were used up or the
  -- language model failed.
  pub prompt-Ended :
      (agent : Agent Value) (user_input : Bytes) (e : E)
      → (messages : List (ChatMessage Value)) × ((prompt parties agent user_input e).1.history
          ≡ agent.history ++ user user_input ∷ messages)
        × Ended agent.max_tool_rounds agent.max_tool_rounds
            (prompt parties agent user_input e).0
            messages
  unfolding prompt
  prompt-Ended agent user_input e =
      let (messages, same, ended) =
        rounds-Extends agent.tools agent.max_tool_rounds agent.max_tool_rounds
          (agent.history ++ user user_input ∷ []) e in
      (messages, same ∙ append_assoc agent.history (user user_input ∷ []) messages, ended)

  -- The agents that a new one becomes by prompts and by clearing its history.
  pub data Session (tools : List (ToolDefinition Value)) (system_prompt : Bytes) (max : ℕ)
      : Agent Value → Type 0 where
    started : Session tools system_prompt max (new tools system_prompt max)
    prompted :
        {agent : Agent Value} (user_input : Bytes) (e : E)
        → Session tools system_prompt max agent
        → Session tools system_prompt max (prompt parties agent user_input e).1
    forgot :
        {agent : Agent Value}
        → Session tools system_prompt max agent
        → Session tools system_prompt max (clear_history agent)

  abbrev Kept : List (ToolDefinition Value) → Bytes → ℕ → Agent Value → Type 0
  Kept tools system_prompt max agent =
      (agent.tools ≡ tools)
      × (agent.max_tool_rounds ≡ max)
      × (messages : List (ChatMessage Value)) × (agent.history ≡ system system_prompt ∷ messages)

  Session-Kept :
      (tools : List (ToolDefinition Value)) (system_prompt : Bytes) (max : ℕ) (agent : Agent Value)
      → Session tools system_prompt max agent
      → Kept tools system_prompt max agent
  unfolding new prompt clear_history
  Session-Kept tools system_prompt max _ started = (refl, refl, [], refl)
  Session-Kept tools system_prompt max _ (prompted {agent = agent} user_input e s) =
      let (same_tools, same_max, messages, history) =
        Session-Kept tools system_prompt max agent s in
      let (added, grown, _) = prompt-Ended agent user_input e in
      (
        same_tools,
        same_max,
        messages ++ user user_input ∷ added,
        grown ∙ ap (λ h. h ++ user user_input ∷ added) history,
      )
  Session-Kept tools system_prompt max _ (forgot {agent = agent} s) =
      let (same_tools, same_max, messages, history) =
        Session-Kept tools system_prompt max agent s in
      (same_tools, same_max, [], ap cleared history)

  -- However many prompts came before, an agent with a cleared history is a new agent.
  clear_history-new :
      (tools : List (ToolDefinition Value)) (system_prompt : Bytes) (max : ℕ) (agent : Agent Value)
      → Session tools system_prompt max agent
      → clear_history agent ≡ new tools system_prompt max
  unfolding clear_history new
  clear_history-new tools system_prompt max agent s =
      let (same_tools, same_max, messages, history) =
        Session-Kept tools system_prompt max agent s in
      λ i. record {
        tools = same_tools i;
        history = cleared (history i);
        max_tool_rounds = same_max i;
      }
