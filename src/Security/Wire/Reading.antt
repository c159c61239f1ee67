-- ===== src/Security/Wire/Reading.antt =====
-- `read_message` of src/security.rs on what the program itself sends.
use pgmoneta_mcp.Prelude.{
  ℕ, ◌+◌, ◌-◌, ◌≤◌, ◌≡◌, refl, ◌∷◌, ◌++◌, append_assoc, length, length-append, le→leb, arith,
}
use pgmoneta_mcp.Bytes.{Bytes, to_be_bytes}
use pgmoneta_mcp.Result.{ok}
use pgmoneta_mcp.Stream.{Reader, Timed, Ending, closes, breaks, stalls, ended, done, next_u8}
use pgmoneta_mcp.Stream.Reads.{next_u32-to_be_bytes, read_exact-append, read_exact-short}
use pgmoneta_mcp.Security.Wire.Lengths.{length-to_be_bytes}
use pgmoneta_mcp.Security.Wire.{
  max_pg_message_len, mechanism, client_first_message, client_final_message, read_message,
  then_read,
}

-- A message with a right length field is read whole, and nothing behind it.
pub read_message-framed :
    (t n : ℕ) (payload rest : Bytes) (ending : Ending)
    → n ≡ 4 + length payload
    → n ≤ max_pg_message_len
    → read_message (record { pending = t ∷ (to_be_bytes n ++ (payload ++ rest)); ending = ending })
      ≡ done (ok (t ∷ (to_be_bytes n ++ payload))) (record { pending = rest; ending = ending })
unfolding read_message next_u8
read_message-framed t n payload rest ending e h = rw (
  next_u32-to_be_bytes n (payload ++ rest) ending (omega arith),
  le→leb 4 n (omega arith),
  le→leb n max_pg_message_len h,
  body_length,
  read_exact-append payload rest ending,
)
  where
    body_length : n - 4 ≡ length payload
    body_length = omega arith

-- The client-first message has a right length field: the reader takes it whole, and leaves what
-- follows, if it is within the limit of 64 KiB.
read_message-client_first :
    (first rest : Bytes) (ending : Ending)
    → 22 + length first ≤ max_pg_message_len
    → let message = client_first_message first in
      read_message (record { pending = message ++ rest; ending = ending })
      ≡ done (ok message) (record { pending = rest; ending = ending })
unfolding client_first_message
read_message-client_first first rest ending h =
    let payload = mechanism ++ (to_be_bytes (length first) ++ first) in
    let n = 22 + length first in
    rw (append_assoc (to_be_bytes n) payload rest) (
      read_message-framed b'p' n payload rest ending
        (omega (
          arith,
          length-append (to_be_bytes (length first)) first,
          length-to_be_bytes (length first),
        ))
        h)

then_read-ended :
    {A B : Type 0} (ending : Ending) (k : A → Reader → Timed B)
    → then_read (ended ending) k ≡ ended ending
then_read-ended closes k = refl
then_read-ended breaks k = refl
then_read-ended stalls k = refl

-- The client-final message claims one byte more than it has: a reader of this framing does not get
-- it, but waits for a byte that is never sent, until the stream ends.
pub read_message-client_final :
    (final : Bytes) (ending : Ending)
    → 5 + length final ≤ max_pg_message_len
    → read_message (record { pending = client_final_message final; ending = ending }) ≡ ended ending
unfolding client_final_message read_message next_u8
read_message-client_final final ending h =
    let n = 5 + length final in
    rw
      (
        next_u32-to_be_bytes n final ending (omega arith),
        le→leb 4 n (omega arith),
        le→leb n max_pg_message_len h,
        read_exact-short (n - 4) final ending (omega arith),
      )
      (then_read-ended ending _)
