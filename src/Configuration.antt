-- ===== src/Configuration.antt =====
-- src/configuration.rs: the settings and what loading does to them behind the INI parser of the
-- `config` crate, which applies the defaults.
pub mod Normal
pub mod Files
use pgmoneta_mcp.Prelude.{ℕ, Bool, true, false, List, [], ◌∷◌, Option, none, some, if◌then◌else◌}
use pgmoneta_mcp.Bytes.{Bytes, codes, eq_bytes}
use pgmoneta_mcp.Bytes.Text.{trim}
use pgmoneta_mcp.Result.{
  Result, ok, err, ◌>>=◌, empty_provider, empty_endpoint, unsupported_provider,
}
use pgmoneta_mcp.Constant.LogLevel
use pgmoneta_mcp.Constant.LogType

-- Ports are `i32` in the source; the code never computes with them.
pub record PgmonetaConfiguration : Type 0 where
  pub host : Bytes
  pub port : ℕ
  pub compression : Bytes
  pub encryption : Bytes

pub record PgmonetaMcpConfiguration : Type 0 where
  pub port : ℕ
  pub log_path : Bytes
  pub log_level : Bytes
  pub log_type : Bytes
  pub log_line_prefix : Bytes
  pub log_mode : Bytes
  pub log_rotation_age : Bytes

pub record LlmConfiguration : Type 0 where
  pub provider : Bytes
  pub endpoint : Bytes
  pub model : Bytes
  pub max_tool_rounds : ℕ

pub record Configuration : Type 0 where
  pub pgmoneta_mcp_section : PgmonetaMcpConfiguration
  pub pgmoneta_section : PgmonetaConfiguration
  pub admins : List (Bytes × Bytes)
  pub llm : Option LlmConfiguration

abbrev pub default_port : ℕ
default_port = 8000

abbrev pub default_log_path : Bytes
default_log_path = codes "pgmoneta_mcp.log"

abbrev pub default_log_level : Bytes
default_log_level = codes LogLevel.info

abbrev pub default_log_type : Bytes
default_log_type = codes LogType.console

abbrev pub default_log_line_prefix : Bytes
default_log_line_prefix = codes "%Y-%m-%d %H:%M:%S"

abbrev pub default_log_mode : Bytes
default_log_mode = codes "append"

abbrev pub default_log_rotation_age : Bytes
default_log_rotation_age = codes "0"

abbrev pub default_llm_max_tool_rounds : ℕ
default_llm_max_tool_rounds = 10

abbrev pub default_compression : Bytes
default_compression = codes "zstd"

abbrev pub default_encryption : Bytes
default_encryption = codes "aes_256_gcm"

unfoldable pub default_llm_model_for_provider : Bytes → Result Bytes
default_llm_model_for_provider provider =
    if eq_bytes provider (codes "ollama")
    then ok (codes "llama3.1")
    else err (unsupported_provider provider)

unfoldable pub validate_llm_provider : Bytes → Result (Unit {0})
validate_llm_provider provider = default_llm_model_for_provider provider >>= λ _. ok tt

-- `model` behind the checks: a default, or what was written if the provider is known.
unfoldable pub model_for : Bytes → Bytes → Result Bytes
model_for provider [] = default_llm_model_for_provider provider
model_for provider (c ∷ model) = validate_llm_provider provider >>= λ _. ok (c ∷ model)

-- The section with its trimmed provider, endpoint and model.
unfoldable pub checked : Bytes → Bytes → Bytes → ℕ → Result LlmConfiguration
checked [] endpoint model max_tool_rounds = err empty_provider
checked (p ∷ provider) [] model max_tool_rounds = err empty_endpoint
checked (p ∷ provider) (e ∷ endpoint) model max_tool_rounds =
    model_for (p ∷ provider) model >>= λ used. ok (record {
      provider = p ∷ provider;
      endpoint = e ∷ endpoint;
      model = used;
      max_tool_rounds = max_tool_rounds;
    })

unfoldable pub normalize_llm : LlmConfiguration → Result LlmConfiguration
normalize_llm llm =
    checked (trim llm.provider) (trim llm.endpoint) (trim llm.model) llm.max_tool_rounds

unfoldable pub normalize_section : Option LlmConfiguration → Result (Option LlmConfiguration)
normalize_section none = ok none
normalize_section (some llm) = normalize_llm llm >>= λ llm'. ok (some llm')

unfoldable pub normalize_configuration : Configuration → Result Configuration
normalize_configuration conf = normalize_section conf.llm >>= λ llm. ok (record conf { llm = llm })
