-- ===== src/Agent.antt =====
-- The tool-calling loop of src/agent.rs. The language model and the MCP peer are parameters that act
-- on a state E of the world outside, so that neither has to answer the same request alike.
pub mod Conversation
pub mod Calling
use pgmoneta_mcp.Prelude.{
  ℕ, zero, suc, if◌then◌else◌, Bool, true, false, List, [], ◌∷◌, ◌++◌, Option, none, some,
}
use pgmoneta_mcp.Bytes.{Bytes, codes}
use pgmoneta_mcp.Result.{Result, ok, err, exceeded_rounds}
use pgmoneta_mcp.Llm.{
  ToolCall, ChatMessage, ToolDefinition, LlmResponse, text, tool_calls, system, user, assistant,
  assistant_tool_calls, tool_result,
}

-- A block of a tool's result; only text is read.
pub data Content : Type 0 where
  text_content : Bytes → Content
  other_content : Content

pub record CallToolResult : Type 0 where
  pub is_error : Option Bool
  pub content : List Content

-- A call of a tool comes back, or fails with an error that prints as the given text.
pub data Called : Type 0 where
  returned : CallToolResult → Called
  call_failed : Bytes → Called

-- The content of a tool's answer, or the message of the error that stands for it.
pub data Executed : Type 0 where
  content_of : Bytes → Executed
  error_of : Bytes → Executed

-- The texts, with a line feed between two of them.
abbrev append_text : Bool → Bytes → Bytes → Bytes
append_text true t rest = t
append_text false t rest = t ++ 10 ∷ rest

abbrev has_no_text : List Content → Bool
has_no_text [] = true
has_no_text (text_content t ∷ content) = false
has_no_text (other_content ∷ content) = has_no_text content

unfoldable pub join_text : List Content → Bytes
join_text [] = []
join_text (text_content t ∷ content) = append_text (has_no_text content) t (join_text content)
join_text (other_content ∷ content) = join_text content

abbrev is_true : Option Bool → Bool
is_true (some b) = b
is_true none = false

unfoldable pub answer_of : Called → Executed
answer_of (call_failed e) = error_of (codes "MCP tool call failed: " ++ e)
answer_of (returned result) =
    if is_true result.is_error
    then error_of (codes "Tool returned error: " ++ join_text result.content)
    else content_of (join_text result.content)

-- What the history gets for a call: the content, or the text of the error.
unfoldable pub shown : Bytes → Executed → Bytes
shown name (content_of content) = content
shown name (error_of e) = codes "Error calling tool '" ++ name ++ codes "': " ++ e

-- The two parties of the loop.
pub record Parties (Value E : Type 0) : Type 0 where
  pub chat :
      List (ChatMessage Value) → List (ToolDefinition Value) → E → Result (LlmResponse Value) × E
  pub call_tool : Bytes → List (Bytes × Value) → E → Called × E

pub record Agent (Value : Type 0) : Type 0 where
  pub tools : List (ToolDefinition Value)
  pub history : List (ChatMessage Value)
  pub max_tool_rounds : ℕ

unfoldable pub new : {Value : Type 0} → List (ToolDefinition Value) → Bytes → ℕ → Agent Value
new tools system_prompt max_tool_rounds = record {
  tools = tools;
  history = system system_prompt ∷ [];
  max_tool_rounds = max_tool_rounds;
}

-- The first message is kept, whatever it is.
abbrev pub cleared : {Value : Type 0} → List (ChatMessage Value) → List (ChatMessage Value)
cleared [] = []
cleared (m ∷ history) = m ∷ []

unfoldable pub clear_history : {Value : Type 0} → Agent Value → Agent Value
clear_history agent = record agent { history = cleared agent.history }

module _ {Value E : Type 0} (parties : Parties Value E) where
  unfoldable pub execute_tool_call : ToolCall Value → E → Executed × E
  unfolding answer_of
  execute_tool_call call e =
      let (called, e') = parties.call_tool call.name call.arguments e in (answer_of called, e')

  -- The calls of one response, in their order, with the history that each result is pushed to.
  unfoldable pub execute_all :
      List (ToolCall Value) → List (ChatMessage Value) → E → List (ChatMessage Value) × E
  execute_all [] history e = (history, e)
  execute_all (call ∷ calls) history e =
      let (executed, e') = execute_tool_call call e in
      execute_all calls (history ++ tool_result call.name (shown call.name executed) ∷ []) e'

  module _ (tools : List (ToolDefinition Value)) (max : ℕ) where
    -- The match on the response; `again` is the loop with the rounds that are left.
    unfoldable pub respond :
        (List (ChatMessage Value) → E → Result Bytes × List (ChatMessage Value) × E)
        → Result (LlmResponse Value)
        → List (ChatMessage Value)
        → E
        → Result Bytes × List (ChatMessage Value) × E
    respond again (err x) history e = (err x, history, e)
    respond again (ok (text t)) history e = (ok t, history ++ assistant t ∷ [], e)
    respond again (ok (tool_calls calls)) history e =
        let (history', e') = execute_all calls (history ++ assistant_tool_calls calls ∷ []) e in
        again history' e'

    -- The loop with n rounds to go.
    unfoldable pub rounds :
        ℕ → List (ChatMessage Value) → E → Result Bytes × List (ChatMessage Value) × E
    rounds zero history e = (err (exceeded_rounds max), history, e)
    rounds (suc n) history e =
        let (r, e') = parties.chat history tools e in respond (rounds n) r history e'

  unfoldable pub prompt : Agent Value → Bytes → E → Result Bytes × Agent Value × E
  prompt agent user_input e =
      let (r, history, e') =
        rounds agent.tools agent.max_tool_rounds agent.max_tool_rounds
          (agent.history ++ user user_input ∷ []) e in
      (r, record agent { history = history }, e')
