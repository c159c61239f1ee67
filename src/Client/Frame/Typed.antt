-- ===== src/Client/Frame/Typed.antt =====
-- What `write_request` of src/client.rs puts on the wire, also where it fails.
use pgmoneta_mcp.Prelude.{
  ℕ, ◌-◌, ◌^◌, ◌≤◌, ◌≡◌, refl, sym, ap, Option, none, some, [], ◌∷◌, ◌++◌, take, length, ltb, ◌==◌,
  ◌&&◌, All, All-append, append-nil, take-length, inl, inr, Bool-cases, if◌then◌else◌, arith,
}
use pgmoneta_mcp.Bytes.{Bytes, IsByte, to_be_bytes, to_be_bytes-IsByte}
use pgmoneta_mcp.Bytes.Text.{IsVisible}
use pgmoneta_mcp.Result.{Result, Error, ok, err, payload_too_large}
use pgmoneta_mcp.Action.{Action, pure, lift, raise, continue, ◌>>=◌}
use pgmoneta_mcp.Libraries.{Libraries, IsBase64}
use pgmoneta_mcp.Constant.Compression
use pgmoneta_mcp.Constant.Encryption
use pgmoneta_mcp.CompressionUtil.{compress}
use pgmoneta_mcp.Security.Gcm.{encrypt_text_aes_gcm_bundle}
use pgmoneta_mcp.World.{World}
use pgmoneta_mcp.Stream.{Writer, put, write_all}
use pgmoneta_mcp.Security.MasterKey.{SecurityUtil}
use pgmoneta_mcp.Client.Frame.{Env, on_wire, protect, payload_of, write_frame, write_request}
use pgmoneta_mcp.Client.Frame.Sent.{frame, write_frame_lem}

-- All of it with a success, and a part with an error.
abbrev pub Amount : Result (Unit {0}) → ℕ → ℕ → Type 0
Amount (ok u) part total = part ≡ total
Amount (err e) part total = part ≤ total

-- The start of one frame with a payload that fits follows what was sent before.
pub record Sends (compression encryption : ℕ) (before : Bytes) (r : Result (Unit {0}))
    (after : Bytes) : Type 0 where
  pub payload : Bytes
  pub part : ℕ
  pub added : after ≡ before ++ take part (frame compression encryption payload)
  pub amount : Amount r part (length (frame compression encryption payload))
  pub typed : All IsByte (frame compression encryption payload)
  pub fits : length payload ≤ 2 ^ 32 - 1

put-Amount :
    (bytes sent : Bytes) (room : Option ℕ)
    → (part : ℕ) × ((put bytes sent room).1.sent ≡ sent ++ take part bytes)
      × Amount (put bytes sent room).0 part (length bytes)
unfolding put
put-Amount bytes sent none = (length bytes, ap (λ x. sent ++ x) (sym (take-length bytes)), refl)
put-Amount bytes sent (some n) = elim (Bool-cases (ltb n (length bytes))) [
  | inl short ↦ rw short (n, refl, ground arith)
  | inr enough ↦ rw enough (length bytes, ap (λ x. sent ++ x) (sym (take-length bytes)), refl)
]

IsVisible→IsByte : (s : Bytes) → IsVisible s → All IsByte s
IsVisible→IsByte [] h = tt
IsVisible→IsByte (b ∷ s) (p, h) = (omega arith, IsVisible→IsByte s h)

frame-IsByte :
    (c e : ℕ) (payload : Bytes)
    → IsByte c
    → IsByte e
    → All IsByte payload
    → All IsByte (frame c e payload)
frame-IsByte c e payload hc he hp = (
  hc,
  (
    he,
    All-append IsByte (to_be_bytes (length payload)) payload (to_be_bytes-IsByte (length payload))
        hp,
  ),
)

write_frame-Sends :
    (c e : ℕ) (payload : Bytes) (w : Writer)
    → IsByte c
    → IsByte e
    → All IsByte payload
    → length payload ≤ 2 ^ 32 - 1
    → Sends c e w.sent (write_frame c e payload w).0 (write_frame c e payload w).1.sent
unfolding write_all
write_frame-Sends c e payload w hc he hp fits =
    let (part, added, amount) = put-Amount (frame c e payload) w.sent w.room in
    rw (write_frame_lem c e payload w) (record {
      payload = payload;
      part = part;
      added = added;
      amount = amount;
      typed = frame-IsByte c e payload hc he hp;
      fits = fits;
    })

-- Where nothing was written.
nothing-Sends :
    (c e : ℕ) (sent : Bytes) (x : Error) → IsByte c → IsByte e → Sends c e sent (err x) sent
nothing-Sends c e sent x hc he = record {
  payload = [];
  part = 0;
  added = sym (append-nil sent);
  amount = omega arith;
  typed = frame-IsByte c e [] hc he tt;
  fits = omega arith;
}

-- The value is made of bytes, if there is one.
abbrev OfBytes : Result Bytes → Type 0
OfBytes (ok bytes) = All IsByte bytes
OfBytes (err e) = Unit

continue-OfBytes :
    {A : Type 0} (r : Result A) (f : A → Action World Bytes) (w : World)
    → ((a : A) (u : World) → OfBytes (f a u).0)
    → OfBytes (continue r f w).0
continue-OfBytes (ok a) f w h = h a w
continue-OfBytes (err e) f w h = tt

>>=-OfBytes :
    {A : Type 0} (m : Action World A) (f : A → Action World Bytes) (w : World)
    → ((a : A) (u : World) → OfBytes (f a u).0)
    → OfBytes ((m >>= f) w).0
>>=-OfBytes m f w h = continue-OfBytes (m w).0 f (m w).1 h

module _ (l : Libraries) (util : SecurityUtil) (base64 : IsBase64 l.base64) where
  protect-OfBytes :
      (request : Bytes) (c e : ℕ) (w : World) → OfBytes (protect l util request c e w).0
  unfolding protect
  protect-OfBytes request c e w =
      >>=-OfBytes (lift (if c == Compression.none then ok request else compress l.codecs request c))
        _ w
        λ compressed u.
          >>=-OfBytes
            (if e == Encryption.none
              then pure compressed
              else encrypt_text_aes_gcm_bundle l util compressed e)
            _ u
            λ encrypted u'.
              IsVisible→IsByte (l.base64.encode encrypted) (base64.encode-IsVisible encrypted)

  payload_of-OfBytes :
      (request : Bytes) (c e : ℕ) (w : World)
      → All IsByte request
      → OfBytes (payload_of l util request c e w).0
  unfolding payload_of
  payload_of-OfBytes request c e w h =
      elim (Bool-cases (c == Compression.none && e == Encryption.none)) [
        | inl plain ↦ rw plain h
        | inr other ↦ rw other (protect-OfBytes request c e w)
      ]

  -- What is left of a request behind its payload.
  written-Sends :
      (c e : ℕ) (r : Result Bytes) (env : Env)
      → IsByte c
      → IsByte e
      → OfBytes r
      → let out =
          continue r
            (λ p.
              if ltb (2 ^ 32 - 1) (length p)
              then raise (payload_too_large (length p))
              else on_wire (write_frame c e p))
            env in
        Sends c e env.wire.sent out.0 out.1.wire.sent
  written-Sends c e (ok p) env hc he h = elim (Bool-cases (ltb (2 ^ 32 - 1) (length p))) [
    | inl big ↦ rw big (nothing-Sends c e env.wire.sent (payload_too_large (length p)) hc he)
    | inr small ↦ rw small (write_frame-Sends c e p env.wire hc he h (ground arith))
  ]
  written-Sends c e (err x) env hc he h = nothing-Sends c e env.wire.sent x hc he

  -- Whatever comes of a request, with modes and a text of bytes it sends the start of one frame behind
  -- what was sent before: all of it if it succeeds. The frame consists of bytes, and the length
  -- of its payload fits the length field.
  pub write_request-Sends :
      (request : Bytes) (c e : ℕ) (env : Env)
      → IsByte c
      → IsByte e
      → All IsByte request
      → Sends c e env.wire.sent
          (write_request l util request c e env).0
          (write_request l util request c e env).1.wire.sent
  unfolding write_request
  write_request-Sends request c e env hc he h =
      written-Sends c e (payload_of l util request c e env.world).0
        (record env { world = (payload_of l util request c e env.world).1 }) hc he
        (payload_of-OfBytes request c e env.world h)
