-- ===== src/Client/Response/Accepted.antt =====
-- What `read_response` of src/client.rs accepts, and nothing else.
use pgmoneta_mcp.Prelude.{
  ℕ, ◌≤◌, ◌<◌, ◌≡◌, ◌≢◌, refl, ap, sym, [], ◌∷◌, length, take, true, false, ltb, arith, Bool-cases,
  inl, inr,
}
use pgmoneta_mcp.Bytes.{Bytes, from_be_bytes}
use pgmoneta_mcp.Result.{
  Result, Error, Stage, ok, err, compression_byte, encryption_byte, message_length, payload,
}
use pgmoneta_mcp.Action.{Action}
use pgmoneta_mcp.Libraries.{Libraries}
use pgmoneta_mcp.World.{World}
use pgmoneta_mcp.Stream.{
  Reader, Ending, ended, closes, breaks, stalls, next_u8, next_u32, read_exact,
}
use pgmoneta_mcp.Security.MasterKey.{SecurityUtil}
use pgmoneta_mcp.Client.Modes.{is_known_compression, is_known_encryption}
use pgmoneta_mcp.Client.Response.{
  max_frame_len, timed, accept, read_response, read_legacy_response_with_prefix,
}

no_text :
    {e : Error} {w w' : World} {s : Bytes}
    → ◌≡◌ {A = Result Bytes × World} (err e, w) (ok s, w')
    → ⊥
no_text h = cc

-- At the end of the stream every timed read ends the method with an error.
no_end :
    {A : Type 0} (stage : Stage) (ending : Ending) (k : A → Reader → Action World Bytes) (w : World)
    {w' : World} {s : Bytes}
    → timed stage (ended ending) k w ≡ (ok s, w')
    → ⊥
no_end stage closes k w h = cc
no_end stage breaks k w h = cc
no_end stage stalls k w h = cc

short_length :
    (rest : Bytes) (ending : Ending) → length rest < 4 → next_u32 rest ending ≡ ended ending
unfolding next_u32
short_length [] ending h = refl
short_length (a ∷ []) ending h = refl
short_length (a ∷ b ∷ []) ending h = refl
short_length (a ∷ b ∷ c ∷ []) ending h = refl
short_length (a ∷ b ∷ c ∷ d ∷ rest) ending h = absurd (omega arith)

module _ (l : Libraries) (util : SecurityUtil) where
  -- A legacy text, or a frame: two known modes, a length of at most 64 MiB, and that many bytes
  -- from which `accept` makes the response.
  pub data Accepted (ending : Ending) (w : World) (s : Bytes) (w' : World) : Bytes → Type 0 where
    legacy :
        (b : ℕ) (tail : Bytes)
        → is_known_compression b ≡ false
        → read_legacy_response_with_prefix (record { pending = tail; ending = ending }) b ≡ ok s
        → w' ≡ w
        → Accepted ending w s w' (b ∷ tail)
    framed :
        (c e l1 l2 l3 l4 : ℕ) (tail : Bytes)
        → is_known_compression c ≡ true
        → is_known_encryption e ≡ true
        → from_be_bytes l1 l2 l3 l4 ≤ max_frame_len
        → from_be_bytes l1 l2 l3 l4 ≤ length tail
        → accept l util c e (take (from_be_bytes l1 l2 l3 l4) tail) w ≡ (ok s, w')
        → Accepted ending w s w' (c ∷ e ∷ l1 ∷ l2 ∷ l3 ∷ l4 ∷ tail)

  legacy_case :
      (b : ℕ) (tail : Bytes) (ending : Ending) (w w' : World) (s : Bytes)
      → is_known_compression b ≡ false
      → read_response l util (record { pending = b ∷ tail; ending = ending }) w ≡ (ok s, w')
      → Accepted ending w s w' (b ∷ tail)
  unfolding read_response next_u8
  legacy_case b tail ending w w' s e h =
      let h' = rw e at h in
      legacy b tail e (ap (λ (x : Result Bytes × World). x.0) h')
        (sym (ap (λ (x : Result Bytes × World). x.1) h'))

  framed_case :
      (c e l1 l2 l3 l4 : ℕ) (tail : Bytes) (ending : Ending) (w w' : World) (s : Bytes)
      → is_known_compression c ≡ true
      → read_response l util
          (record { pending = c ∷ e ∷ l1 ∷ l2 ∷ l3 ∷ l4 ∷ tail; ending = ending })
          w
        ≡ (ok s, w')
      → Accepted ending w s w' (c ∷ e ∷ l1 ∷ l2 ∷ l3 ∷ l4 ∷ tail)
  unfolding read_response next_u8 next_u32 read_exact
  framed_case c e l1 l2 l3 l4 tail ending w w' s known h =
      let len = from_be_bytes l1 l2 l3 l4 in
      elim (Bool-cases (is_known_encryption e)) [
        | inr no_mode ↦ absurd (no_text (rw (known, no_mode) at h))
        | inl mode ↦ elim (Bool-cases (ltb max_frame_len len)) [
          | inl large ↦ absurd (no_text (rw (known, mode, large) at h))
          | inr small ↦ elim (Bool-cases (ltb (length tail) len)) [
            | inl short ↦ absurd (no_end payload ending _ _ (rw (known, mode, small, short) at h))
            | inr enough ↦
                framed c e l1 l2 l3 l4 tail known mode (ground arith) (ground arith)
                  (rw (known, mode, small, enough) at h)
          ]
        ]
      ]

  short_case :
      (c : ℕ) (tail : Bytes) (ending : Ending) (w w' : World) (s : Bytes)
      → is_known_compression c ≡ true
      → length tail < 5
      → read_response l util (record { pending = c ∷ tail; ending = ending }) w ≢ (ok s, w')
  unfolding read_response next_u8 next_u32
  short_case c [] ending w w' s known h q = no_end encryption_byte ending _ _ (rw known at q)
  short_case c (e ∷ rest) ending w w' s known h q = elim (Bool-cases (is_known_encryption e)) [
    | inr no_mode ↦ no_text (rw (known, no_mode) at q)
    | inl mode ↦
        no_end message_length ending _ _
          (rw (known, mode, short_length rest ending (omega arith)) at q)
  ]

  known_case :
      (c : ℕ) (tail : Bytes) (ending : Ending) (w w' : World) (s : Bytes)
      → is_known_compression c ≡ true
      → read_response l util (record { pending = c ∷ tail; ending = ending }) w ≡ (ok s, w')
      → Accepted ending w s w' (c ∷ tail)
  known_case c (e ∷ l1 ∷ l2 ∷ l3 ∷ l4 ∷ tail) ending w w' s known h =
      framed_case c e l1 l2 l3 l4 tail ending w w' s known h
  known_case c [] ending w w' s known h =
      absurd (short_case c [] ending w w' s known (omega arith) h)
  known_case c (e ∷ []) ending w w' s known h =
      absurd (short_case c (e ∷ []) ending w w' s known (omega arith) h)
  known_case c (e ∷ l1 ∷ []) ending w w' s known h =
      absurd (short_case c (e ∷ l1 ∷ []) ending w w' s known (omega arith) h)
  known_case c (e ∷ l1 ∷ l2 ∷ []) ending w w' s known h =
      absurd (short_case c (e ∷ l1 ∷ l2 ∷ []) ending w w' s known (omega arith) h)
  known_case c (e ∷ l1 ∷ l2 ∷ l3 ∷ []) ending w w' s known h =
      absurd (short_case c (e ∷ l1 ∷ l2 ∷ l3 ∷ []) ending w w' s known (omega arith) h)

  by_bytes :
      (bytes : Bytes) (ending : Ending) (w w' : World) (s : Bytes)
      → read_response l util (record { pending = bytes; ending = ending }) w ≡ (ok s, w')
      → Accepted ending w s w' bytes
  unfolding read_response next_u8
  by_bytes [] ending w w' s h = absurd (no_end compression_byte ending _ _ h)
  by_bytes (c ∷ tail) ending w w' s h = elim (Bool-cases (is_known_compression c)) [
    | inl known ↦ known_case c tail ending w w' s known h
    | inr unknown ↦ legacy_case c tail ending w w' s unknown h
  ]

  -- A response is accepted only as a legacy text, whose first byte is no compression code, or as a
  -- complete frame with known modes and at most 64 MiB, and then as `accept` makes it of exactly the
  -- announced bytes.
  pub read_response-Accepted :
      (r : Reader) (w w' : World) (s : Bytes)
      → read_response l util r w ≡ (ok s, w')
      → Accepted r.ending w s w' r.pending
  read_response-Accepted r w w' s h = by_bytes r.pending r.ending w w' s h
