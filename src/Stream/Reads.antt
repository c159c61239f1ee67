-- ===== src/Stream/Reads.antt =====
-- Reads that meet what was written.
use pgmoneta_mcp.Prelude.{
  ℕ, ◌^◌, ◌%◌, ◌<◌, ◌≡◌, ◌++◌, length, length-append, take-length-append, drop-length-append,
  lt→ltb, le→ltb, arith,
}
use pgmoneta_mcp.Bytes.{Bytes, to_be_bytes, from_be_bytes-to_be_bytes}
use pgmoneta_mcp.Stream.{Ending, ended, done, next_u32, read_exact}

-- The four length bytes read back, with the rest behind them.
pub next_u32-to_be_bytes :
    (n : ℕ) (rest : Bytes) (ending : Ending)
    → n < 2 ^ 32
    → next_u32 (to_be_bytes n ++ rest) ending ≡ done n (record { pending = rest; ending = ending })
unfolding next_u32 to_be_bytes
next_u32-to_be_bytes n rest ending h = rw (from_be_bytes-to_be_bytes n, whole n h)
  where
    whole : (k : ℕ) → k < 2 ^ 32 → k % 2 ^ 32 ≡ k
    whole k h = omega arith

-- All bytes of a body are read, and none behind it.
pub read_exact-append :
    (body rest : Bytes) (ending : Ending)
    → read_exact (length body) (record { pending = body ++ rest; ending = ending })
      ≡ done body (record { pending = rest; ending = ending })
unfolding read_exact
read_exact-append body rest ending = rw (
  le→ltb (length (body ++ rest)) (length body) (omega (arith, length-append body rest)),
  take-length-append body rest,
  drop-length-append body rest,
)

-- A read of more than there is meets the end.
pub read_exact-short :
    (n : ℕ) (body : Bytes) (ending : Ending)
    → length body < n
    → read_exact n (record { pending = body; ending = ending }) ≡ ended ending
unfolding read_exact
read_exact-short n body ending h = rw (lt→ltb (length body) n h)
