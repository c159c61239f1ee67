-- ===== src/Result.antt =====
-- `anyhow::Result` of the source: a value, or an error that names the message it carries.
-- State passes beside the result, since what was written before an error stays written.
use pgmoneta_mcp.Prelude.{ℕ, ◌≡◌, refl, Bool, true, false, List, inl, inr, ◌⊎◌}

-- What `read_response` of src/client.rs was reading.
pub data Stage : Type 0 where
  compression_byte encryption_byte message_length payload legacy_response : Stage

-- The messages of the handshake in src/security.rs, in their order.
pub data Phase : Type 0 where
  startup client_first client_final : Phase
  startup_response server_first server_final auth_success : Phase

-- One constructor for each `anyhow!` message of the modelled code; `library` is an error that a
-- third-party call returned and the code passes on by `?`.
pub data Error : Type 0 where
  library : List ℕ → Error
  io : Error
  invalid_utf8 : Error
  -- src/constant.rs
  unrecognized_command unrecognized_format : ℕ → Error
  unrecognized_compression unrecognized_encryption : ℕ → Error
  -- src/compression.rs
  unknown_compression_algorithm : ℕ → Error
  lz4_input_too_large lz4_buffer_too_small lz4_size_too_large lz4_size_mismatch : Error
  -- src/security.rs
  home_not_found key_file_empty master_salt_missing : Error
  master_salt_length unexpected_line : ℕ → Error
  ciphertext_too_large not_enough_bytes : Error
  step1_failed step2_failed pbkdf2_failed key_initialization_failed aes_encryption_failed
        aes_decryption_failed :
      Error → Error
  unsupported_encryption_mode : ℕ → Error
  invalid_message_length : ℕ → Error
  failed_to_connect connection_timed_out : Error
  failed_to_send waiting_timed_out invalid_message : Phase → Error
  unsupported_auth_type unexpected_auth_type authentication_did_not_succeed : ℕ → Error
  scram_not_offered authentication_failed unexpected_success_response : Error
  -- src/client.rs
  unrecognized_encryption_mode : List ℕ → Error
  failed_to_read reading_timed_out : Stage → Error
  unsupported_encryption_code payload_too_large oversized_frame : ℕ → Error
  user_not_found : List ℕ → Error
  -- src/agent.rs
  exceeded_rounds : ℕ → Error
  -- src/llm/ollama.rs
  ollama_unreachable : List ℕ → Error → Error
  health_check_failed list_models_refused : ℕ → Error
  model_info_failed list_models_failed chat_not_sent chat_not_parsed : Error → Error
  model_not_found : List ℕ → Error
  chat_refused : ℕ → List ℕ → Error
  -- src/configuration.rs
  empty_provider empty_endpoint : Error
  unsupported_provider : List ℕ → Error
  -- src/handler.rs
  outcome_missing : Error
  parse_failed translate_failed serialize_failed : Error → Error
  backup_info_failed list_backups_failed : Error → Error
  -- src/bin/admin.rs
  master_key_needed : Error → Error
  user_exists user_unknown user_file_missing : List ℕ → Error
  admins_missing passwords_differ : Error
  missing_argument : List ℕ → Error
  -- src/logging.rs
  invalid_log_mode invalid_log_type invalid_rotation_age : List ℕ → Error
  cannot_open_log : Error
  event_log_not_registered event_log_not_started : Error → Error
  -- a slice of a length that the callee asserts against
  panicked : Error

pub data Result {ℓ} (A : Type ℓ) : Type ℓ where
  ok : A → Result A
  err : Error → Result A

module _ {ℓ κ} {A : Type ℓ} {B : Type κ} where
  infixl 5 ◌>>=◌
  abbrev pub ◌>>=◌ : Result A → (A → Result B) → Result B
  ok a >>= f = f a
  err e >>= f = err e

  -- Inversion of a chain that succeeded.
  pub >>=-eq-ok :
      (step : Result A) (next : A → Result B) {y : B}
      → (step >>= next) ≡ ok y
      → (x : A) × (step ≡ ok x) × (next x ≡ ok y)
  >>=-eq-ok (ok x) next chain = (x, refl, chain)
  >>=-eq-ok (err e) next chain = cc

module _ {ℓ} {A : Type ℓ} where
  abbrev pub is_ok : Result A → Bool
  is_ok (ok a) = true
  is_ok (err e) = false

  -- `map_err`
  abbrev pub map_err : (Error → Error) → Result A → Result A
  map_err f (ok a) = ok a
  map_err f (err e) = err (f e)

  pub Result-cases : (r : Result A) → ((a : A) × (r ≡ ok a)) ⊎ ((e : Error) × (r ≡ err e))
  Result-cases (ok a) = inl (a, refl)
  Result-cases (err e) = inr (e, refl)
