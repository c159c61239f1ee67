-- ===== src/Tests/Settings.antt =====
-- The agent of src/agent.rs, the configuration and the tables of src/constant.rs on concrete inputs.
use pgmoneta_mcp.Prelude.{ℕ, zero, suc, ◌≡◌, ◌≢◌, ◌≤◌, ◌↔◌, refl, true, some, List, [], ◌∷◌, ◌++◌}
use pgmoneta_mcp.Bytes.{codes}
use pgmoneta_mcp.Bytes.Text.{trim, to_lowercase}
use pgmoneta_mcp.Result.{Result, ok}
use pgmoneta_mcp.Llm.{ChatMessage, LlmResponse, text, tool_calls, system, user}
use pgmoneta_mcp.Agent.{Agent, Parties, call_failed, prompt}
use pgmoneta_mcp.Agent.Conversation.{Ended, prompt-Ended}
use pgmoneta_mcp.Configuration.{
  Configuration, LlmConfiguration, normalize_configuration, default_port, default_log_path,
  default_log_level, default_log_type, default_log_line_prefix, default_log_mode,
  default_log_rotation_age, default_compression, default_encryption, default_llm_max_tool_rounds,
}
use pgmoneta_mcp.Configuration.Normal.{normalize_configuration_iff}
use pgmoneta_mcp.Logging.{LogFiles, hourly, unix, to_rolling_file, make_writer}
use pgmoneta_mcp.Logging.Writers.{Selects, make_writer_iff}
use pgmoneta_mcp.Client.Modes.{
  parse_encryption, parse_compression, is_known_encryption, is_known_compression, SaysNone,
  parse_encryption_off,
}
use pgmoneta_mcp.Constant.Compression
use pgmoneta_mcp.Constant.Encryption

-- A model that calls one tool, which fails, and then answers.
abbrev reply : ℕ → Result (LlmResponse ℕ)
reply zero =
    ok (
      tool_calls
        (record { name = codes "list_backups"; arguments = (codes "server", 1) ∷ [] } ∷ []))
reply (suc n) = ok (text (codes "no backups"))

abbrev parties : Parties ℕ ℕ
parties = record {
  chat = λ history tools n. (reply n, suc n);
  call_tool = λ name arguments n. (call_failed (codes "no server"), n);
}

-- With two messages before.
abbrev agent : Agent ℕ
agent = record {
  tools = [];
  history = system (codes "You manage backups.") ∷ user (codes "hi") ∷ [];
  max_tool_rounds = 3;
}

prompt-Ended_example :
    (messages : List (ChatMessage ℕ)) × ((prompt parties agent (codes "hello") 0).1.history
      ≡ agent.history ++ user (codes "hello") ∷ messages)
    × Ended 3 3 (prompt parties agent (codes "hello") 0).0 messages
prompt-Ended_example = prompt-Ended parties agent (codes "hello") 0

-- The defaults with a section for the language model.
abbrev llm_section : LlmConfiguration
llm_section = record {
  provider = codes " ollama";
  endpoint = codes "http://localhost";
  model = [];
  max_tool_rounds = default_llm_max_tool_rounds;
}

abbrev conf : Configuration
conf = record {
  pgmoneta_mcp_section = record {
    port = default_port;
    log_path = default_log_path;
    log_level = default_log_level;
    log_type = default_log_type;
    log_line_prefix = default_log_line_prefix;
    log_mode = default_log_mode;
    log_rotation_age = default_log_rotation_age;
  };
  pgmoneta_section = record {
    host = codes "localhost";
    port = 5000;
    compression = default_compression;
    encryption = default_encryption;
  };
  admins = [];
  llm = some llm_section;
}

normalize_configuration_iff_example :
    ((after : Configuration) × (normalize_configuration conf ≡ ok after))
    ↔ ((trim (codes " ollama") ≡ codes "ollama") × (trim (codes "http://localhost") ≢ []))
normalize_configuration_iff_example = normalize_configuration_iff conf llm_section refl

abbrev log_files : LogFiles
log_files = record { opens = λ p. true; rolls = λ p. true }

make_writer_iff_example :
    (make_writer log_files (unix true) (codes "file") (codes "log") (codes "append") (codes "h")
      ≡ ok (to_rolling_file hourly (codes "log")))
    ↔ Selects log_files
        (unix true)
        (codes "file")
        (codes "log")
        (codes "append")
        (codes "h")
        (to_rolling_file hourly (codes "log"))
make_writer_iff_example =
    make_writer_iff log_files (unix true) (codes "file") (codes "log") (codes "append") (codes "h")
      (to_rolling_file hourly (codes "log"))

parse_encryption_off_example :
    (parse_encryption (codes "OFF") ≡ ok Encryption.none → SaysNone (to_lowercase (codes "OFF")))
    × ((e : ℕ) → parse_encryption (codes "OFF") ≡ ok e → is_known_encryption e ≡ true)
    × (is_known_compression (parse_compression (codes "OFF")) ≡ true)
    × (parse_compression (codes "OFF") ≤ Compression.bzip2)
parse_encryption_off_example = parse_encryption_off (codes "OFF")
