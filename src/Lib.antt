-- ===== src/Lib.antt =====
-- pgmoneta_mcp: an MCP server through which a language model manages PostgreSQL backups of pgmoneta.
-- A tool call of the MCP server becomes a request of the management client (client.rs), which logs
-- in to pgmoneta with SCRAM-SHA-256 (security.rs), sends the request in a frame that may be
-- compressed (compression.rs) and encrypted (security.rs), and reads one response frame back. The
-- password for the login is stored encrypted under the master key file. The agent (agent.rs) lets
-- a local language model call the tools. Configuration and logging are set up at the start.
--
-- Files and the code they model, by paths from the root of the repository:
--   Constant            src/constant.rs: codes, names and error texts
--   CompressionUtil     src/compression.rs: `compress`, `decompress` and the LZ4 framing
--   Security/MasterKey  src/security.rs: `load_master_key`, `write_master_key`
--   Security/Kdf        src/security.rs: `get_or_derive_master_key`, `derive_key_two_step`
--   Security/Evolves      src/security.rs: what its actions may do to the world
--   Security/Blind        src/security.rs: the key cache changes no result
--   Security/Fresh        src/security.rs: where salts and nonces come from
--   Security/Gcm        src/security.rs: encryption, decryption, base64 form and bundle
--   Security/Wire       src/security.rs: `read_message`, `create_startup_message`, SASL messages
--   Security/Handshake  src/security.rs: `connect_to_server`
--   Security/Password   src/security.rs: `generate_password`
--   Client/Modes        src/client.rs: the configured modes and the known codes
--   Client/Frame        src/client.rs: `write_request`
--   Client/Response     src/client.rs: `read_response` and the legacy parser
--   Client/Request      src/client.rs and src/client/info.rs: `forward_request`
--   Security/Kdf/Threads  src/security.rs: the key cache under several threads
--   Dict                  `HashMap` with texts as keys, and `sort_unstable` on texts
--   Dict/Table            the same maps as a quotient that forgets the order of the entries
--   Configuration/Files   src/configuration.rs: the two loaders
--   Admin                 src/bin/admin.rs: the users file, the master key, the commands
--   Llm, Agent          src/llm/mod.rs and src/agent.rs: messages and `prompt`
--   Llm/Ollama          src/llm/ollama.rs: the client of the language model
--   Configuration       src/configuration.rs: the sections and `normalize_configuration`
--   Logging             src/logging.rs: level, writer, rotation and the subscriber
--   Server              src/bin/server.rs: the start of the server
--   Handler/Tools       src/handler/info.rs and src/handler/hello.rs: the tools
--   Handler/Fresh       the tools and the random bytes in what they send
--   Handler/Locked      the tools and the permissions of the key file
--   Handler/Running     the tools, called one after another while files change
--   Handler             src/handler.rs: `_translate_result`, `generate_call_tool_result_string`
--   Utility             src/utils.rs: `format_file_size`, and hexadecimal texts
-- Shared: Prelude (names, tests, lists), Result and Action (errors and state), Bytes (text as bytes,
-- UTF-8, white space, big-endian words), Libraries (the crates as parameters with the behaviour that
-- theorems rely on), World (files, random bytes, the key cache), Stream (both directions of a
-- connection). Tests has concrete libraries and streams on which the theorems are tried.
--
-- State and errors: a method that changes state takes it and gives it back beside a result, also
-- with an error. Each `anyhow!` message is a constructor of `Error`. The key cache is a field of the
-- world; a mutex is never poisoned, since nothing between lock and unlock panics. A reader is the
-- list of bytes that come in time and how the stream ends; a writer has what was sent and how much
-- the connection still takes.
-- Security/Closed, Client/Closed and Handler/Closed show a property of actions for all that the code
-- builds from its steps in the world, so that each property has only the steps to show.
-- Bounds: the source's own limits (64 MiB for a frame, 64 KiB for a message, 1 MiB for a stored
-- password, 2^31 and 2^32 for LZ4 and frames) are constants of the model. Loops recurse on what they
-- consume: the legacy loop on the bytes that are left, the agent's loop on the rounds that are left.
-- Threads of the key derivation share the mutex of the cache, one step each, in any order: a thread in
-- front of a lock waits while a guard lives, and the guards are dropped where the code drops them. The users
-- file is a file of the world whose INI text is read back as a table with the same users; theorems
-- that rest on this say so.
-- Digits are printed with fuel for 20 decimal or 16 hexadecimal ones, enough for a 64-bit number.
-- Not modelled: third-party crates (parameters), JSON and INI text, HTTP and the routing of MCP
-- requests, the argument parser, the creation of parent directories, file errors other than a
-- missing file, a directory or text that is not UTF-8, the lower case of letters outside ASCII, the
-- log lines and the texts of the prompts.
pub mod Prelude
pub mod Result
pub mod Bytes
pub mod Action
pub mod Dict
pub mod Libraries
pub mod Constant
pub mod CompressionUtil
pub mod World
pub mod Security
pub mod Stream
pub mod Client
pub mod Llm
pub mod Agent
pub mod Configuration
pub mod Logging
pub mod Utility
pub mod Handler
pub mod Admin
pub mod Server
pub mod Tests
