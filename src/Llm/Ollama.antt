-- ===== src/Llm/Ollama.antt =====
-- The client of an Ollama server: src/llm/ollama.rs. The HTTP client of reqwest and the JSON texts of
-- serde_json are parameters; a request acts on a state E of the world outside.
pub mod Chat
use pgmoneta_mcp.Prelude.{
  ℕ, Bool, true, false, ◌&&◌, ◌||◌, Option, none, some, List, [], ◌∷◌, ◌++◌, map, leb, ltb, ◌==◌,
  if◌then◌else◌,
}
use pgmoneta_mcp.Bytes.{Bytes, codes, eq_bytes}
use pgmoneta_mcp.Result.{
  Result, ok, err, Error, ollama_unreachable, health_check_failed, list_models_refused,
  model_info_failed, list_models_failed, chat_not_sent, chat_not_parsed, model_not_found,
  chat_refused,
}
use pgmoneta_mcp.Action.{Action, pure, lift, raise, map_action_err, ◌>>=◌, ◌>>◌}
use pgmoneta_mcp.Llm.{ToolCall, ChatMessage, ToolDefinition, LlmResponse, text, tool_calls}

pub record OllamaClient : Type 0 where
  pub endpoint : Bytes
  pub model : Bytes

pub record OllamaChatRequest (Value : Type 0) : Type 0 where
  pub model : Bytes
  pub messages : List (ChatMessage Value)
  pub stream : Bool
  pub tools : Option (List (ToolDefinition Value))

-- A missing text or list of calls is an empty one. The calls are those of the agent, since they have
-- the same two members; so is their conversion.
pub record OllamaMessage (Value : Type 0) : Type 0 where
  pub role : Bytes
  pub content : Bytes
  pub tool_calls : List (ToolCall Value)

pub record OllamaChatResponse (Value : Type 0) : Type 0 where
  pub message : OllamaMessage Value
  pub done : Bool

pub record OllamaModelDetails : Type 0 where
  pub family : Option Bytes
  pub parameter_size : Option Bytes
  pub quantization_level : Option Bytes

pub record OllamaModelInfo : Type 0 where
  pub name : Bytes
  pub details : Option OllamaModelDetails

pub record OllamaTagsResponse : Type 0 where
  pub models : List OllamaModelInfo

pub record OllamaShowResponse : Type 0 where
  pub capabilities : List Bytes

-- A response has a status, and a body that may break off.
pub record HttpResponse : Type 0 where
  pub status : ℕ
  pub body : Result Bytes

pub record Http (E : Type 0) : Type 0 where
  pub get : Bytes → Action E HttpResponse
  pub post : Bytes → Bytes → Action E HttpResponse

-- The JSON texts of the requests and responses.
pub record Json (Value : Type 0) : Type 0 where
  pub chat_request : OllamaChatRequest Value → Result Bytes
  pub chat_response : Bytes → Result (OllamaChatResponse Value)
  pub show_request : Bytes → Result Bytes
  pub show_response : Bytes → Result OllamaShowResponse
  pub tags_response : Bytes → Result OllamaTagsResponse

abbrev is_none_left : Bytes → Bool
is_none_left [] = true
is_none_left (c ∷ s) = false

-- `trim_end_matches('/')`
unfoldable pub trim_end_slashes : Bytes → Bytes
trim_end_slashes [] = []
trim_end_slashes (c ∷ s) =
    let rest = trim_end_slashes s in if is_none_left rest && c == b'/' then [] else c ∷ rest

unfoldable pub new : Bytes → Bytes → OllamaClient
new endpoint model = record { endpoint = trim_end_slashes endpoint; model = model }

-- `is_success`: the statuses 200 to 299.
unfoldable pub is_success : ℕ → Bool
is_success status = leb 200 status && ltb status 300

-- `if tools.is_empty() { None } else { Some(tools) }`
abbrev pub some_tools :
    {Value : Type 0} → List (ToolDefinition Value) → Option (List (ToolDefinition Value))
some_tools [] = none
some_tools (t ∷ tools) = some (t ∷ tools)

-- `c == "tools"` for one of them.
unfoldable pub has_tools : List Bytes → Bool
has_tools [] = false
has_tools (c ∷ capabilities) = eq_bytes c (codes "tools") || has_tools capabilities

-- `resp.text().await.unwrap_or_default()`
abbrev pub text_or_default : Result Bytes → Bytes
text_or_default (ok t) = t
text_or_default (err e) = []

-- `resp.json()`
abbrev pub parsed : {A : Type 0} → (Bytes → Result A) → HttpResponse → Result A
parsed parse resp = elim resp.body [ err e ↦ err e | ok t ↦ parse t ]

-- Tool calls come before a text.
abbrev pub response_of : {Value : Type 0} → List (ToolCall Value) → Bytes → LlmResponse Value
response_of [] content = text content
response_of (call ∷ calls) content = tool_calls (call ∷ calls)

module _ {Value E : Type 0} (http : Http E) (j : Json Value) (client : OllamaClient) where
  unfoldable pub health_check : Action E (Unit {0})
  health_check = do
    resp ←
        map_action_err (ollama_unreachable client.endpoint)
          (http.get (client.endpoint ++ codes "/"))
    if is_success resp.status then pure tt else raise (health_check_failed resp.status)

  -- A request with a JSON body; a body that cannot be made is an error of sending.
  unfoldable pub post_json : Bytes → Result Bytes → Action E HttpResponse
  post_json path body = do t ← lift body; http.post (client.endpoint ++ path) t

  unfoldable pub check_model_capabilities : Action E Bool
  check_model_capabilities = do
    resp ←
        map_action_err model_info_failed
          (post_json (codes "/api/show") (j.show_request client.model))
    if is_success resp.status
        then lift (elim (parsed j.show_response resp) [
          | err e ↦ err e
          | ok show ↦ ok (has_tools show.capabilities)
        ])
        else raise (model_not_found client.model)

  unfoldable pub list_models : Action E (List OllamaModelInfo)
  list_models = do
    resp ← map_action_err list_models_failed (http.get (client.endpoint ++ codes "/api/tags"))
    if is_success resp.status
        then lift (elim (parsed j.tags_response resp) [ err e ↦ err e | ok tags ↦ ok tags.models ])
        else raise (list_models_refused resp.status)

  -- What is sent for a history.
  unfoldable pub chat_request :
      List (ChatMessage Value) → List (ToolDefinition Value) → OllamaChatRequest Value
  chat_request messages tools = record {
    model = client.model;
    messages = messages;
    stream = false;
    tools = some_tools tools;
  }

  abbrev pub answer_of : Result (OllamaChatResponse Value) → Result (LlmResponse Value)
  answer_of (err e) = err (chat_not_parsed e)
  answer_of (ok chat_resp) = ok (response_of chat_resp.message.tool_calls chat_resp.message.content)

  -- What is made of the response to a chat.
  unfoldable pub read_chat : HttpResponse → Result (LlmResponse Value)
  read_chat resp =
      if is_success resp.status
      then answer_of (parsed j.chat_response resp)
      else err (chat_refused resp.status (text_or_default resp.body))

  unfoldable pub chat :
      List (ChatMessage Value) → List (ToolDefinition Value) → Action E (LlmResponse Value)
  chat messages tools = do
    resp ←
        map_action_err chat_not_sent
          (post_json (codes "/api/chat") (j.chat_request (chat_request messages tools)))
    lift (read_chat resp)
