-- ===== src/Llm/Ollama/Chat.antt =====
-- `chat` of src/llm/ollama.rs, alone and as the language model of the agent of src/agent.rs.
use mathlib.Core.Path.{subst}
use pgmoneta_mcp.Prelude.{
  ℕ, ◌≤◌, ◌<◌, ◌≡◌, ◌≢◌, refl, sym, ap, Bool, true, false, List, [], ◌∷◌, ◌++◌, arith, All,
  if◌then◌else◌,
}
use pgmoneta_mcp.Bytes.{Bytes, codes}
use pgmoneta_mcp.Result.{Result, ok, err, chat_not_sent, chat_refused}
use pgmoneta_mcp.Action.{map_action_err, map_action_err-eq-ok, >>=-eq-ok, continue-eq-ok}
use pgmoneta_mcp.Llm.{ToolCall, ChatMessage, ToolDefinition, LlmResponse, text, tool_calls}
use pgmoneta_mcp.Llm.Ollama.{
  OllamaClient, OllamaMessage, OllamaChatResponse, HttpResponse, Http, Json, some_tools,
  text_or_default, parsed, response_of, is_success, read_chat, answer_of, post_json, chat_request,
  chat,
}
use pgmoneta_mcp.Agent.Calling.{IsCalling, AlwaysCalls, prompt-AlwaysCalls}
use pgmoneta_mcp.Agent.{Parties, Agent, Called, prompt}

is_success-bounds : (status : ℕ) → is_success status ≡ true → (200 ≤ status) × (status < 300)
unfolding is_success
is_success-bounds status h = ground arith

module _ {Value : Type 0} where
  -- The answer to a message: its calls, if it has some, and else its text.
  abbrev pub Replies : OllamaMessage Value → LlmResponse Value → Type 0
  Replies m (text t) = (m.tool_calls ≡ []) × (t ≡ m.content)
  Replies m (tool_calls calls) = (calls ≢ []) × (calls ≡ m.tool_calls)

  response_of-Replies : (m : OllamaMessage Value) → Replies m (response_of m.tool_calls m.content)
  response_of-Replies m = by_calls m.tool_calls refl
    where
      by_calls :
          (calls : List (ToolCall Value))
          → m.tool_calls ≡ calls
          → Replies m (response_of calls m.content)
      by_calls [] e = (e, refl)
      by_calls (c ∷ calls) e = (λ h. cc, sym e)

module _ {Value E : Type 0} (http : Http E) (j : Json Value) (client : OllamaClient) where
  -- A chat that was answered: one request was sent, and its response was read.
  pub record Chatted (messages : List (ChatMessage Value)) (tools : List (ToolDefinition Value))
      (e : E) (answer : LlmResponse Value) (e' : E) : Type 0 where
    pub body : Bytes
    pub resp : HttpResponse
    pub t : Bytes
    pub chat_resp : OllamaChatResponse Value
    pub made :
        j.chat_request (record {
          model = client.model;
          messages = messages;
          stream = false;
          tools = some_tools tools;
        })
        ≡ ok body
    pub posted : http.post (client.endpoint ++ codes "/api/chat") body e ≡ (ok resp, e')
    pub successful : (200 ≤ resp.status) × (resp.status < 300)
    pub read : resp.body ≡ ok t
    pub understood : j.chat_response t ≡ ok chat_resp
    pub replies : Replies chat_resp.message answer

  read_chat-eq-ok :
      (resp : HttpResponse) (answer : LlmResponse Value)
      → read_chat http j client resp ≡ ok answer
      → ((200 ≤ resp.status) × (resp.status < 300))
        × (t : Bytes) × (chat_resp : OllamaChatResponse Value) × (resp.body ≡ ok t)
        × (j.chat_response t ≡ ok chat_resp)
        × Replies chat_resp.message answer
  unfolding read_chat is_success
  read_chat-eq-ok resp answer h = by_status (is_success resp.status) refl h
    where
      by_answer :
          (chat_resp : Result (OllamaChatResponse Value)) {t : Bytes}
          → j.chat_response t ≡ chat_resp
          → answer_of http j client chat_resp ≡ ok answer
          → (c : OllamaChatResponse Value) × (j.chat_response t ≡ ok c) × Replies c.message answer
      by_answer (err x) e k = cc
      by_answer (ok c) e k =
          let same : response_of c.message.tool_calls c.message.content ≡ answer = cc in
          (c, e, subst (Replies c.message) same (response_of-Replies c.message))

      by_body :
          (body : Result Bytes)
          → resp.body ≡ body
          → answer_of http j client (elim body [ err e ↦ err e | ok t ↦ j.chat_response t ])
            ≡ ok answer
          → (t : Bytes) × (chat_resp : OllamaChatResponse Value) × (resp.body ≡ ok t)
            × (j.chat_response t ≡ ok chat_resp)
            × Replies chat_resp.message answer
      by_body (err x) e k = cc
      by_body (ok t) e k =
          let (c, understood, replies) = by_answer (j.chat_response t) refl k in
          (t, c, e, understood, replies)

      by_status :
          (good : Bool)
          → is_success resp.status ≡ good
          → (if good
              then answer_of http j client (parsed j.chat_response resp)
              else err (chat_refused resp.status (text_or_default resp.body)))
            ≡ ok answer
          → ((200 ≤ resp.status) × (resp.status < 300))
            × (t : Bytes) × (chat_resp : OllamaChatResponse Value) × (resp.body ≡ ok t)
            × (j.chat_response t ≡ ok chat_resp)
            × Replies chat_resp.message answer
      by_status false g k = cc
      by_status true g k =
          let (t, chat_resp, came, understood, replies) = by_body resp.body refl k in
          (is_success-bounds resp.status g, t, chat_resp, came, understood, replies)

  -- An answer of the chat rests on one request, sent to the endpoint's chat path with the history and
  -- with the tools if there are any, whose response had a status of success and could be read. The
  -- answer is the calls of the response if it has some, and its text only if it has none.
  pub chat-Chatted :
      (messages : List (ChatMessage Value)) (tools : List (ToolDefinition Value)) (e : E)
      (answer : LlmResponse Value) (e' : E)
      → chat http j client messages tools e ≡ (ok answer, e')
      → Chatted messages tools e answer e'
  unfolding chat post_json chat_request is_success
  chat-Chatted messages tools e answer e' h =
      let (resp, u, sent, k) =
        >>=-eq-ok
          (map_action_err chat_not_sent (
            post_json http j client (codes "/api/chat")
              (j.chat_request (chat_request http j client messages tools))))
          _ e h in
      let sent' =
        map_action_err-eq-ok chat_not_sent
          (post_json http j client (codes "/api/chat")
            (j.chat_request (chat_request http j client messages tools)))
          e sent in
      let (body, made, posted) =
        continue-eq-ok (j.chat_request (chat_request http j client messages tools)) _ e sent' in
      let read : ◌≡◌ {A = Result (LlmResponse Value) × E} (read_chat http j client resp, u)
          (ok answer, e') =
        k in
      let (good, t, chat_resp, came, understood, replies) =
        read_chat-eq-ok resp answer (ap (λ (x : Result (LlmResponse Value) × E). x.0) read) in
      let same : u ≡ e' = ap (λ (x : Result (LlmResponse Value) × E). x.1) read in
      record {
        body = body;
        resp = resp;
        t = t;
        chat_resp = chat_resp;
        made = made;
        posted = rw same at posted;
        successful = good;
        read = came;
        understood = understood;
        replies = replies;
      }

  -- The client as the language model of an agent.
  abbrev pub parties : (Bytes → List (Bytes × Value) → E → Called × E) → Parties Value E
  parties call_tool = record { chat = chat http j client; call_tool = call_tool }

  chat-calls :
      (call_tool : Bytes → List (Bytes × Value) → E → Called × E) → AlwaysCalls (parties call_tool)
  chat-calls call_tool messages tools e calls h =
      (chat-Chatted messages tools e (tool_calls calls) (chat http j client messages tools e).1
        (λ i. (h i, (chat http j client messages tools e).1))).replies.0

  -- Whatever the Ollama server answers to the prompts of an agent, no message of the history asks for an
  -- empty list of tool calls, if none did before.
  pub prompt-IsCalling :
      (call_tool : Bytes → List (Bytes × Value) → E → Called × E) (agent : Agent Value)
      (user_input : Bytes) (e : E)
      → All IsCalling agent.history
      → All IsCalling (prompt (parties call_tool) agent user_input e).1.history
  prompt-IsCalling call_tool agent user_input e h =
      prompt-AlwaysCalls (parties call_tool) (chat-calls call_tool) agent user_input e h
