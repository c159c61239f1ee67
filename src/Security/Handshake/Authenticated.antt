-- ===== src/Security/Handshake/Authenticated.antt =====
-- What a connection that `connect_to_server` of src/security.rs hands out has been through.
use mathlib.Core.Path.{subst}
use pgmoneta_mcp.Prelude.{
  false, ◌≡◌, refl, ap, Bool, true, ◌++◌, ◌==◌, ==_iff, inl, inr, ◌⊎◌, if◌then◌else◌,
}
use pgmoneta_mcp.Bytes.{Bytes, codes}
use pgmoneta_mcp.Result.{
  Result, ok, err, Error, startup, client_first, client_final, startup_response, server_first,
  server_final, auth_success, scram_not_offered, unsupported_auth_type,
}
use pgmoneta_mcp.Action.{pure, raise, continue-eq-ok, >>=-eq-ok}
use pgmoneta_mcp.Security.Wire.{create_startup_message, client_first_message, client_final_message}
use pgmoneta_mcp.Security.Handshake.{
  Scram, Connection, Connecting, connected, refused, timed_out, Header, auth_ok, auth_sasl,
  auth_sasl_continue, auth_sasl_final, has_window, send, receive, auth_message, sasl_payload,
  check_success, sasl_exchange, startup_answer, authenticate, connect_to_server,
}
use pgmoneta_mcp.Security.Handshake.Messages.{send-eq-ok, Received, receive-eq-ok, last_step}

module _ (scram : Scram) where
  -- A complete exchange: the server's continue message, which the session answers, its final message,
  -- which the session verifies, and its success message, with the client's two messages sent between.
  pub record Exchanged (c d : Connection) : Type 0 where
    pub first : Bytes
    pub final : Bytes
    pub last : Bytes
    pub first_message : Bytes
    pub final_message : Bytes
    pub success : Bytes
    pub c1 : Connection
    pub c2 : Connection
    pub c3 : Connection
    pub c4 : Connection
    pub asked :
        (c1.reader ≡ c.reader)
        × (c1.writer.sent ≡ c.writer.sent ++ client_first_message scram.client_first)
    pub challenged : Received c1 first_message c2
    pub is_continue : sasl_payload server_first auth_sasl_continue first_message ≡ ok first
    pub answered : scram.handle_server_first first ≡ ok final
    pub proved :
        (c3.reader ≡ c2.reader) × (c3.writer.sent ≡ c2.writer.sent ++ client_final_message final)
    pub concluded : Received c3 final_message c4
    pub is_final : sasl_payload server_final auth_sasl_final final_message ≡ ok last
    pub verified : scram.handle_server_final first last ≡ ok tt
    pub closed : Received c4 success d
    pub is_success : check_success success ≡ ok tt

  sasl_exchange-Exchanged : (c d : Connection) → sasl_exchange scram c ≡ (ok tt, d) → Exchanged c d
  unfolding sasl_exchange
  sasl_exchange-Exchanged c d h =
      let (_, c1, sent1, h1) =
        >>=-eq-ok (send client_first (client_first_message scram.client_first)) _ c h in
      let (first_message, c2, got1, h2) = >>=-eq-ok (receive server_first) _ c1 h1 in
      let (first, e1, h3) =
        continue-eq-ok (sasl_payload server_first auth_sasl_continue first_message) _ c2 h2 in
      let (final, e2, h4) = continue-eq-ok (scram.handle_server_first first) _ c2 h3 in
      let (_, c3, sent2, h5) = >>=-eq-ok (send client_final (client_final_message final)) _ c2 h4 in
      let (final_message, c4, got2, h6) = >>=-eq-ok (receive server_final) _ c3 h5 in
      let (last, e3, h7) =
        continue-eq-ok (sasl_payload server_final auth_sasl_final final_message) _ c4 h6 in
      let (_, e4, h8) = continue-eq-ok (scram.handle_server_final first last) _ c4 h7 in
      let (success, c5, got3, h9) = >>=-eq-ok (receive auth_success) _ c4 h8 in
      record {
        first = first;
        final = final;
        last = last;
        first_message = first_message;
        final_message = final_message;
        success = success;
        c1 = c1;
        c2 = c2;
        c3 = c3;
        c4 = c4;
        asked = send-eq-ok client_first (client_first_message scram.client_first) c c1 sent1;
        challenged = receive-eq-ok server_first c1 c2 first_message got1;
        is_continue = e1;
        answered = e2;
        proved = send-eq-ok client_final (client_final_message final) c2 c3 sent2;
        concluded = receive-eq-ok server_final c3 c4 final_message got2;
        is_final = e3;
        verified = e4;
        closed = receive-eq-ok auth_success c4 d success (last_step success c4 c5 d got3 h9);
        is_success = ap (λ (x : Result (Unit {0}) × Connection). x.0) h9;
      }

  -- The startup message was sent, and the response either ends the handshake at once with the code
  -- 0, or offers SCRAM-SHA-256 with the code 10 and a complete exchange follows.
  pub data Authenticated (username : Bytes) (c d : Connection) : Type 0 where
    trusted :
        (c1 : Connection) (response : Bytes) (h : Header)
        → (c1.reader ≡ c.reader)
          × (c1.writer.sent ≡ c.writer.sent ++ create_startup_message username)
        → Received c1 response d
        → auth_message startup_response response ≡ ok h
        → h.auth_type ≡ auth_ok
        → Authenticated username c d
    proved :
        (c1 c2 : Connection) (response : Bytes) (h : Header)
        → (c1.reader ≡ c.reader)
          × (c1.writer.sent ≡ c.writer.sent ++ create_startup_message username)
        → Received c1 response c2
        → auth_message startup_response response ≡ ok h
        → h.auth_type ≡ auth_sasl
        → has_window (codes "SCRAM-SHA-256") h.payload ≡ true
        → Exchanged c2 d
        → Authenticated username c d

  exchange_outcome :
      (w : Bool) (c d : Connection)
      → (if w then sasl_exchange scram else raise scram_not_offered) c ≡ (ok tt, d)
      → (w ≡ true) × (sasl_exchange scram c ≡ (ok tt, d))
  exchange_outcome true c d e = (refl, e)
  exchange_outcome false c d e = cc

  code_outcome :
      (zero_code sasl_code w : Bool) (other : Error) (c d : Connection)
      → (if zero_code
            then pure tt
            else if sasl_code
            then (if w then sasl_exchange scram else raise scram_not_offered)
            else raise other)
          c
        ≡ (ok tt, d)
      → ((zero_code ≡ true) × (c ≡ d))
        ⊎ ((sasl_code ≡ true) × (w ≡ true) × (sasl_exchange scram c ≡ (ok tt, d)))
  code_outcome true s w other c d e = inl (refl, ap (λ (x : Result (Unit {0}) × Connection). x.1) e)
  code_outcome false true w other c d e =
      let (offered, exchange) = exchange_outcome w c d e in inr (refl, offered, exchange)
  code_outcome false false w other c d e = cc

  answer_cases :
      (h : Header) (c d : Connection)
      → startup_answer scram h c ≡ (ok tt, d)
      → ((h.auth_type ≡ auth_ok) × (c ≡ d))
        ⊎ ((h.auth_type ≡ auth_sasl)
            × (has_window (codes "SCRAM-SHA-256") h.payload ≡ true)
            × (sasl_exchange scram c ≡ (ok tt, d)))
  unfolding startup_answer
  answer_cases h c d e =
      elim (code_outcome (h.auth_type == auth_ok) (h.auth_type == auth_sasl)
        (has_window (codes "SCRAM-SHA-256") h.payload) (unsupported_auth_type h.auth_type) c d e) [
          | inl (z, same) ↦ inl ((==_iff h.auth_type auth_ok).0 z, same)
          | inr (z, offered, exchange) ↦ inr ((==_iff h.auth_type auth_sasl).0 z, offered, exchange)
        ]

  authenticate-Authenticated :
      (username : Bytes) (c d : Connection)
      → authenticate scram username c ≡ (ok tt, d)
      → Authenticated username c d
  unfolding authenticate
  authenticate-Authenticated username c d h =
      let (_, c1, sent, h1) = >>=-eq-ok (send startup (create_startup_message username)) _ c h in
      let (response, c2, got, h2) = >>=-eq-ok (receive startup_response) _ c1 h1 in
      let (head, e, h3) = continue-eq-ok (auth_message startup_response response) _ c2 h2 in
      let s = send-eq-ok startup (create_startup_message username) c c1 sent in
      elim (answer_cases head c2 d h3) [
        | inl (zero_code, same) ↦
            trusted c1 response head s
              (receive-eq-ok startup_response c1 d response
                (subst (λ x. receive startup_response c1 ≡ (ok response, x)) same got))
              e zero_code
        | inr (code, offered, exchange) ↦
            proved c1 c2 response head s (receive-eq-ok startup_response c1 c2 response got) e code
              offered (sasl_exchange-Exchanged c2 d exchange)
      ]

  connected_outcome :
      (r : Result (Unit {0})) (c d : Connection)
      → elim r [ ok _ ↦ ok c | err e ↦ err e ] ≡ ok d
      → ◌≡◌ {A = Result (Unit {0}) × Connection} (r, c) (ok tt, d)
  connected_outcome (ok u) c d h = cc
  connected_outcome (err e) c d h = cc

  -- A stream is handed out only after a complete handshake, in which the session verified the
  -- server's final message, or to a server that asked for no authentication at all.
  pub connect_to_server-Authenticated :
      (username : Bytes) (connecting : Connecting) (d : Connection)
      → connect_to_server scram connecting username ≡ ok d
      → (c : Connection) × (connecting ≡ connected c) × Authenticated username c d
  unfolding connect_to_server
  connect_to_server-Authenticated username (connected c) d h = (
    c,
    refl,
    authenticate-Authenticated username c d
        (connected_outcome (authenticate scram username c).0 (authenticate scram username c).1 d h),
  )
  connect_to_server-Authenticated username refused d h = cc
  connect_to_server-Authenticated username timed_out d h = cc
