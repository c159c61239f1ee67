-- ===== src/Client/Frame/Sent.antt =====
-- What `write_request` of src/client.rs leaves on the wire.
use mathlib.Core.Path.{fun_ext}
use pgmoneta_mcp.Prelude.{
  ℕ, ◌-◌, ◌^◌, ◌≡◌, refl, sym, ltb, inl, inr, Bool-cases, if◌then◌else◌, ◌∙◌, ap, [], ◌∷◌, ◌++◌,
  length,
}
use pgmoneta_mcp.Bytes.{Bytes, to_be_bytes}
use pgmoneta_mcp.Result.{Result, ok, err, payload_too_large}
use pgmoneta_mcp.Action.{raise, continue, ◌>>◌}
use pgmoneta_mcp.Libraries.{Libraries}
use pgmoneta_mcp.World.{World}
use pgmoneta_mcp.Security.MasterKey.{SecurityUtil}
use pgmoneta_mcp.Stream.{Writer, write_u8, write_u32, write_all}
use pgmoneta_mcp.Stream.Writing.{write_all-append, put-eq-ok}
use pgmoneta_mcp.Client.Frame.{Env, on_wire, payload_of, write_frame, write_request}

-- One byte for each mode, four for the length, big-endian, then the payload.
abbrev pub frame : ℕ → ℕ → Bytes → Bytes
frame compression encryption payload =
    compression ∷ encryption ∷ (to_be_bytes (length payload) ++ payload)

joined : (xs ys : Bytes) → (write_all xs >> write_all ys) ≡ write_all (xs ++ ys)
joined xs ys = fun_ext (write_all-append xs ys)

write_tail :
    (encryption : ℕ) (payload : Bytes)
    → (write_u8 encryption >> (write_u32 (length payload) >> write_all payload))
      ≡ write_all (encryption ∷ (to_be_bytes (length payload) ++ payload))
unfolding write_u8 write_u32
write_tail encryption payload =
    ap (λ m. write_all (encryption ∷ []) >> m) (joined (to_be_bytes (length payload)) payload)
    ∙ joined (encryption ∷ []) (to_be_bytes (length payload) ++ payload)

-- The four writes send the frame, and where the connection breaks they send a part of it from the
-- start, as one write of the whole frame does.
pub write_frame_lem :
    (compression encryption : ℕ) (payload : Bytes) (w : Writer)
    → write_frame compression encryption payload w
      ≡ write_all (frame compression encryption payload) w
unfolding write_frame write_u8
write_frame_lem compression encryption payload w =
    ap (λ m. (write_all (compression ∷ []) >> m) w) (write_tail encryption payload)
    ∙ write_all-append (compression ∷ []) _ w

module _ (l : Libraries) (util : SecurityUtil) (compression encryption : ℕ) where
  prepared-frame :
      (r : Result Bytes) (env env' : Env)
      → continue r
          (λ p.
            if ltb (2 ^ 32 - 1) (length p)
            then raise (payload_too_large (length p))
            else on_wire (write_frame compression encryption p))
          env
        ≡ (ok tt, env')
      → (body : Bytes) × (r ≡ ok body)
        × (env'.wire.sent ≡ env.wire.sent ++ frame compression encryption body)
        × (env'.world ≡ env.world)
  unfolding write_all
  prepared-frame (err e) env env' h = cc
  prepared-frame (ok p) env env' h = elim (Bool-cases (ltb (2 ^ 32 - 1) (length p))) [
    | inl big ↦ let clash = rw big at h in cc
    | inr small ↦
        let k = rw small at h in
        let whole = write_frame_lem compression encryption p env.wire in
        let success : (write_all (frame compression encryption p) env.wire).0 ≡ ok tt =
          sym (ap (λ (x : Result (Unit {0}) × Writer). x.0) whole)
          ∙ ap (λ (x : Result (Unit {0}) × Env). x.0) k in
        (
          p,
          refl,
          sym (ap (λ (x : Result (Unit {0}) × Env). x.1.wire.sent) k)
              ∙ ap (λ (x : Result (Unit {0}) × Writer). x.1.sent) whole
              ∙ put-eq-ok (frame compression encryption p) env.wire.sent env.wire.room success,
          sym (ap (λ (x : Result (Unit {0}) × Env). x.1.world) k),
        )
  ]

  -- A request that succeeded added the frame of its payload to the stream.
  pub write_request-frame :
      (request : Bytes) (env env' : Env)
      → write_request l util request compression encryption env ≡ (ok tt, env')
      → (body : Bytes) × (w' : World) × (payload_of l util request compression encryption env.world
          ≡ (ok body, w'))
        × (env'.wire.sent ≡ env.wire.sent ++ frame compression encryption body)
        × (env'.world ≡ w')
  unfolding write_request
  write_request-frame request env env' h =
      let (r, w') = payload_of l util request compression encryption env.world in
      let (body, e, written, same) = prepared-frame r (record env { world = w' }) env' h in
      (body, w', (λ i. (e i, w')), written, same)
