-- ===== src/Client/Response/Legacy.antt =====
-- Legacy responses in src/client.rs: text up to a zero byte, or up to the end of what comes.
use pgmoneta_mcp.Prelude.{
  ℕ, ◌<◌, ◌≡◌, refl, [], ◌∷◌, ◌++◌, false, append-nil, append_assoc, arith, All,
}
use pgmoneta_mcp.Bytes.{Bytes}
use pgmoneta_mcp.Bytes.Utf8.{from_utf8}
use pgmoneta_mcp.Result
use pgmoneta_mcp.Result.{Result, ok, err, legacy_response, failed_to_read}
use pgmoneta_mcp.Libraries.{Libraries}
use pgmoneta_mcp.World.{World}
use pgmoneta_mcp.Stream.{Ending, closes, breaks, stalls, next_u8}
use pgmoneta_mcp.Security.MasterKey.{SecurityUtil}
use pgmoneta_mcp.Client.Modes.{is_known_compression}
use pgmoneta_mcp.Client.Response.{legacy_loop, read_response, read_legacy_response_with_prefix}

abbrev pub NoNul : Bytes → Type 0
NoNul = All (λ b. 0 < b)

legacy_loop-zero :
    (buf text rest : Bytes) (ending : Ending)
    → NoNul text
    → legacy_loop buf (text ++ 0 ∷ rest) ending ≡ ok (buf ++ text)
unfolding legacy_loop
legacy_loop-zero buf [] rest ending h = rw append-nil
legacy_loop-zero buf (b ∷ text) rest ending (p, h) =
    ground
      (arith, legacy_loop-zero (buf ++ b ∷ []) text rest ending h, append_assoc buf (b ∷ []) text)

-- What the end of the stream makes of the text so far.
abbrev pub at_end : Ending → Bytes → Result Bytes
at_end closes text = from_utf8 text
at_end stalls text = from_utf8 text
at_end breaks text = err (failed_to_read legacy_response)

unknown_first : (b : ℕ) → 7 < b → is_known_compression b ≡ false
unfolding is_known_compression
unknown_first b h = ground arith

legacy_loop-end :
    (buf text : Bytes) (ending : Ending)
    → NoNul text
    → Result.◌>>=◌ (legacy_loop buf text ending) from_utf8 ≡ at_end ending (buf ++ text)
unfolding legacy_loop
legacy_loop-end buf [] closes h = rw append-nil
legacy_loop-end buf [] stalls h = rw append-nil
legacy_loop-end buf [] breaks h = refl
legacy_loop-end buf (b ∷ text) ending (p, h) =
    ground (arith, legacy_loop-end (buf ++ b ∷ []) text ending h, append_assoc buf (b ∷ []) text)

-- A response whose first byte is no compression code is the text up to its first zero byte. With no
-- zero byte it is all that came before the peer closed the stream or fell silent, and it is an error
-- if the connection broke. In each case the text must be UTF-8, and the world stays as it is.
pub read_response-legacy :
    (l : Libraries) (util : SecurityUtil) (b : ℕ) (text rest : Bytes) (ending : Ending) (w : World)
    → 7 < b
    → NoNul text
    → (read_response l util (record { pending = b ∷ (text ++ 0 ∷ rest); ending = ending }) w
        ≡ (from_utf8 (b ∷ text), w))
      × (read_response l util (record { pending = b ∷ text; ending = ending }) w
          ≡ (at_end ending (b ∷ text), w))
unfolding read_response read_legacy_response_with_prefix next_u8
read_response-legacy l util b text rest ending w first h = (
  rw (unknown_first b first, legacy_loop-zero (b ∷ []) text rest ending h),
  rw (unknown_first b first, legacy_loop-end (b ∷ []) text ending h),
)
