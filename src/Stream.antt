-- ===== src/Stream.antt =====
-- The two directions of a TCP stream, as the program meets them through tokio. A reader has the
-- bytes that the peer sends in time and what happens behind them; a writer has what was sent and
-- how much more the connection takes.
pub mod Writing
pub mod Reads
use pgmoneta_mcp.Prelude.{
  ℕ, ◌-◌, Option, none, some, [], ◌∷◌, ◌++◌, length, take, drop, ltb, if◌then◌else◌,
}
use pgmoneta_mcp.Bytes.{Bytes, to_be_bytes, from_be_bytes}
use pgmoneta_mcp.Result.{Result, ok, err, io}
use pgmoneta_mcp.Action.{Action}

-- The peer closes, the connection breaks, or nothing comes until the timeout.
pub data Ending : Type 0 where
  closes breaks stalls : Ending

pub record Reader : Type 0 where
  pub pending : Bytes
  pub ending : Ending

pub data IoError : Type 0 where
  unexpected_eof other_kind : IoError

-- The outcome of `timeout(duration, read).await`.
pub data Timed (A : Type 0) : Type 0 where
  done : A → Reader → Timed A
  failed : IoError → Timed A
  elapsed : Timed A

abbrev pub ended : {A : Type 0} → Ending → Timed A
ended closes = failed unexpected_eof
ended breaks = failed other_kind
ended stalls = elapsed

unfoldable pub next_u8 : Bytes → Ending → Timed ℕ
next_u8 (b ∷ rest) e = done b (record { pending = rest; ending = e })
next_u8 [] e = ended e

unfoldable pub next_u32 : Bytes → Ending → Timed ℕ
next_u32 (a ∷ b ∷ c ∷ d ∷ rest) e =
    done (from_be_bytes a b c d) (record { pending = rest; ending = e })
next_u32 _ e = ended e

abbrev pub read_u8 : Reader → Timed ℕ
read_u8 r = next_u8 r.pending r.ending

abbrev pub read_u32 : Reader → Timed ℕ
read_u32 r = next_u32 r.pending r.ending

-- `read_exact` into a buffer of n bytes.
unfoldable pub read_exact : ℕ → Reader → Timed Bytes
read_exact n r =
    if ltb (length r.pending) n
    then ended r.ending
    else done (take n r.pending) (record r { pending = drop n r.pending })

pub record Writer : Type 0 where
  pub sent : Bytes
  -- `none` where the connection takes everything
  pub room : Option ℕ

unfoldable pub put : Bytes → Bytes → Option ℕ → Result (Unit {0}) × Writer
put bytes sent none = (ok tt, record { sent = sent ++ bytes; room = none })
put bytes sent (some n) =
    if ltb n (length bytes)
    then (err io, record { sent = sent ++ take n bytes; room = some 0 })
    else (ok tt, record { sent = sent ++ bytes; room = some (n - length bytes) })

-- `write_all`: what fits is sent even if the rest fails.
unfoldable pub write_all : Bytes → Action Writer (Unit {0})
unfolding put
write_all bytes w = put bytes w.sent w.room

unfoldable pub write_u8 : ℕ → Action Writer (Unit {0})
unfolding write_all
write_u8 b = write_all (b ∷ [])

unfoldable pub write_u32 : ℕ → Action Writer (Unit {0})
unfolding write_all
write_u32 n = write_all (to_be_bytes n)
