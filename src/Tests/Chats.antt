-- ===== src/Tests/Chats.antt =====
-- The Ollama client of src/llm/ollama.rs on a concrete server.
use pgmoneta_mcp.Prelude.{ℕ, zero, suc, ◌≡◌, refl, true, if◌then◌else◌, List, [], ◌∷◌, All}
use pgmoneta_mcp.Bytes.{Bytes, codes, eq_bytes}
use pgmoneta_mcp.Result.{ok, err, io}
use pgmoneta_mcp.Llm.{ToolCall, tool_calls, system, user}
use pgmoneta_mcp.Llm.Ollama.{
  OllamaClient, Http, Json, new, trim_end_slashes, is_success, post_json, chat_request, read_chat,
  chat, has_tools, check_model_capabilities,
}
use pgmoneta_mcp.Llm.Ollama.Chat.{Chatted, chat-Chatted, parties, prompt-IsCalling}
use pgmoneta_mcp.Agent.{Agent, Called, call_failed, prompt}
use pgmoneta_mcp.Agent.Calling.{IsCalling}

-- A server that counts its requests, and answers the first chat with a tool call.
abbrev served : Bytes → ℕ → Bytes
served url zero = codes "call"
served url (suc n) = codes "no backups"

abbrev http : Http ℕ
http = record {
  get = λ url n. (ok (record { status = 200; body = ok [] }), suc n);
  post = λ url body n. (ok (record { status = 200; body = ok (served url n) }), suc n);
}

abbrev call : ToolCall ℕ
call = record { name = codes "list_backups"; arguments = (codes "server", 1) ∷ [] }

abbrev json : Json ℕ
json = record {
  chat_request = λ r. ok r.model;
  chat_response = λ t. ok (record {
    message = record {
      role = codes "assistant";
      content = t;
      tool_calls = if eq_bytes t (codes "call") then call ∷ [] else [];
    };
    done = true;
  });
  show_request = ok;
  show_response = λ t. ok (record { capabilities = codes "completion" ∷ codes "tools" ∷ [] });
  tags_response = λ t. err io;
}

abbrev client : OllamaClient
client = record { endpoint = codes "http://localhost:11434"; model = codes "llama3.1" }

client_is : new (codes "http://localhost:11434//") (codes "llama3.1") ≡ client
unfolding new trim_end_slashes
client_is = refl

capable : check_model_capabilities http json client 0 ≡ (ok true, 1)
unfolding check_model_capabilities post_json is_success has_tools eq_bytes
capable = refl

chats : chat http json client (user (codes "hi") ∷ []) [] 0 ≡ (ok (tool_calls (call ∷ [])), 1)
unfolding chat post_json chat_request read_chat is_success eq_bytes
chats = refl

chat-Chatted_example :
    Chatted http json client (user (codes "hi") ∷ []) [] 0 (tool_calls (call ∷ [])) 1
chat-Chatted_example =
    chat-Chatted http json client (user (codes "hi") ∷ []) [] 0 (tool_calls (call ∷ [])) 1 chats

abbrev call_tool : Bytes → List (Bytes × ℕ) → ℕ → Called × ℕ
call_tool name arguments n = (call_failed (codes "no server"), n)

abbrev agent : Agent ℕ
agent = record {
  tools = [];
  history = system (codes "You manage backups.") ∷ [];
  max_tool_rounds = 3;
}

prompt-IsCalling_example :
    All IsCalling (prompt (parties http json client call_tool) agent (codes "hello") 0).1.history
prompt-IsCalling_example =
    prompt-IsCalling http json client call_tool agent (codes "hello") 0 ((λ h. cc), tt)
