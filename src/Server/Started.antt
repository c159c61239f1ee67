-- ===== src/Server/Started.antt =====
-- The start of src/bin/server.rs, on all of its paths.
use pgmoneta_mcp.Prelude.{ℕ, ◌≡◌, sym, some, true, ◌⊎◌, refl, ap, false, Option, none, inl, inr}
use pgmoneta_mcp.Bytes.{Bytes}
use pgmoneta_mcp.Bytes.Utf8.{from_utf8}
use pgmoneta_mcp.Result.{Result, ok, err, Error, Result-cases}
use pgmoneta_mcp.Action.{Action, continue, ◌>>◌, >>=-eq-ok, continue-eq-ok}
use pgmoneta_mcp.Configuration.{Configuration, normalize_configuration}
use pgmoneta_mcp.Configuration.Files.{load_configuration}
use pgmoneta_mcp.Logging.{LogFiles, Platform}
use pgmoneta_mcp.Logging
use pgmoneta_mcp.World.{World, Node, file, directory, read_to_string}
use pgmoneta_mcp.Server.{Args, Process, address_of, load, start_log, bind, set_config, serve, main}

-- The file at the path, and its text.
abbrev pub HasText : World → Bytes → Bytes → Type 0
HasText w path text =
    (content : Bytes) × (mode : ℕ) × (w.files path ≡ some (file content mode))
    × (from_utf8 content ≡ ok text)

node_text :
    (n : Option Node) (path : Bytes) (w w' : World) (text : Bytes)
    → w.files path ≡ n
    → read_to_string path w ≡ (ok text, w')
    → HasText w path text × (w' ≡ w)
unfolding read_to_string
node_text none path w w' text e h = let clash = rw (read_to_string, e) at h in cc
node_text (some (directory mode)) path w w' text e h = let clash = rw (read_to_string, e) at h in cc
node_text (some (file content mode)) path w w' text e h =
    let k = rw (read_to_string, e) at h in
    elim (Result-cases (from_utf8 content)) [
      | inl (t, utf8) ↦
          let k' = rw utf8 at k in
          let same : t ≡ text = cc in
          ((content, mode, e, rw (← same) utf8), sym (ap (λ (x : Result Bytes × World). x.1) k))
      | inr (x, bad) ↦ let clash = rw bad at k in cc
    ]

read_to_string-HasText :
    (path : Bytes) (w w' : World) (text : Bytes)
    → read_to_string path w ≡ (ok text, w')
    → HasText w path text × (w' ≡ w)
read_to_string-HasText path w w' text h = node_text (w.files path) path w w' text refl h

module _ (parse : Bytes → Bytes → Result Configuration) (files : LogFiles) (platform : Platform)
    (listen : Bytes → Result (Unit {0})) where
  -- The texts of the two files, parsed together and normalized.
  pub record Configures (conf users : Bytes) (w : World) (config : Configuration) : Type 0 where
    pub config_text : Bytes
    pub user_text : Bytes
    pub parsed : Configuration
    pub config_file : HasText w conf config_text
    pub user_file : HasText w users user_text
    pub is_parsed : parse config_text user_text ≡ ok parsed
    pub is_normal : normalize_configuration parsed ≡ ok config

  load_configuration-Configures :
      (conf users : Bytes) (w w' : World) (config : Configuration)
      → load_configuration parse conf users w ≡ (ok config, w')
      → Configures conf users w config
  unfolding load_configuration
  load_configuration-Configures conf users w w' config h =
      let (config_text, u, e1, h1) = >>=-eq-ok (read_to_string conf) _ w h in
      let (user_text, v, e2, h2) = >>=-eq-ok (read_to_string users) _ u h1 in
      let (parsed, e3, h3) = continue-eq-ok (parse config_text user_text) _ v h2 in
      let (config_file, same) = read_to_string-HasText conf w u config_text e1 in
      let (user_file, _) = read_to_string-HasText users u v user_text e2 in
      record {
        config_text = config_text;
        user_text = user_text;
        parsed = parsed;
        config_file = config_file;
        user_file = rw same at user_file;
        is_parsed = e3;
        is_normal = ap (λ (x : Result Configuration × World). x.0) h3;
      }

  -- A server that serves: its cell has the configuration of the two files in the world before, and it
  -- listens on the port of it.
  pub record Serving (args : Args) (w : World) (t : Process) : Type 0 where
    pub config : Configuration
    pub read : Configures args.conf args.users w config
    pub in_cell : t.config ≡ some config
    pub at_port : t.listening ≡ some (address_of config)
    pub bound : listen (address_of config) ≡ ok tt
    pub runs : t.serving ≡ true

  -- What follows a configuration that was loaded.
  abbrev rest : Configuration → Action Process (Unit {0})
  rest config =
      start_log files platform config
      >> (bind listen (address_of config) >> (set_config config >> serve))

  -- The process did not come to serve: an error, and the cell is as before.
  abbrev pub Fails : Option Configuration → Result (Unit {0}) → Process → Type 0
  Fails before r t = ((e : Error) × (r ≡ err e)) × (t.config ≡ before) × (t.serving ≡ false)

  rest-Serving :
      (args : Args) (w : World) (config : Configuration) (s : Process)
      → Configures args.conf args.users w config
      → s.config ≡ none
      → s.serving ≡ false
      → (((rest config s).0 ≡ ok tt) × Serving args w (rest config s).1)
        ⊎ Fails none (rest config s).0 (rest config s).1
  unfolding start_log bind set_config serve
  rest-Serving args w config s read empty idle =
      let c = config.pgmoneta_mcp_section in
      let logged =
        Logging.init files platform c.log_level c.log_type c.log_line_prefix c.log_path c.log_mode
          c.log_rotation_age in
      elim (Result-cases logged) [
        | inr (e, panics) ↦ rw (start_log, panics) (inr ((e, refl), empty, idle))
        | inl (log, starts) ↦ elim (Result-cases (listen (address_of config))) [
          | inl (u, bound) ↦
              rw (start_log, starts, bind, bound, set_config, empty)
                (inl (
                  refl,
                  record {
                    config = config;
                    read = read;
                    in_cell = refl;
                    at_port = refl;
                    bound = bound;
                    runs = refl;
                  },
                ))
          | inr (e, failed) ↦ rw (start_log, starts, bind, failed) (inr ((e, refl), empty, idle))
        ]
      ]

  -- The start of a process whose cell is empty and that does not serve yet ends in one of two ways. The
  -- server serves, with the configuration that the texts of the two files give, parsed together and
  -- normalized, in its cell, on the port of that configuration; or the start fails, the cell stays empty,
  -- and no request is served.
  pub main-Serving :
      (args : Args) (s : Process)
      → s.config ≡ none
      → s.serving ≡ false
      → (((main parse files platform listen args s).0 ≡ ok tt)
          × Serving args s.world (main parse files platform listen args s).1)
        ⊎ Fails none
            (main parse files platform listen args s).0
            (main parse files platform listen args s).1
  unfolding main load
  main-Serving args s empty idle =
      let (r, w) = load_configuration parse args.conf args.users s.world in by_load r w refl
    where
      by_load :
          (r : Result Configuration) (w : World)
          → load_configuration parse args.conf args.users s.world ≡ (r, w)
          → let out = continue r rest (record s { world = w }) in
            ((out.0 ≡ ok tt) × Serving args s.world out.1) ⊎ Fails none out.0 out.1
      by_load (err e) w h = inr ((e, refl), empty, idle)
      by_load (ok config) w h =
          rest-Serving args s.world config (record s { world = w })
            (load_configuration-Configures args.conf args.users s.world w config h) empty idle
