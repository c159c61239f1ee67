-- ===== src/Stream/Writing.antt =====
-- Writing in pieces is writing the whole.
use pgmoneta_mcp.Prelude.{
  ℕ, ◌-◌, ◌≤◌, ◌≡◌, refl, ap, ◌∙◌, Option, none, some, [], ◌∷◌, ◌++◌, append_assoc, length,
  length-append, take, ltb, arith, Bool-cases, inl, inr, zero, suc,
}
use pgmoneta_mcp.Bytes.{Bytes}
use pgmoneta_mcp.Result.{ok}
use pgmoneta_mcp.Action.{continue, ◌>>◌}
use pgmoneta_mcp.Stream.{Writer, put, write_all}

take_append-le : (n : ℕ) (xs ys : Bytes) → n ≤ length xs → take n (xs ++ ys) ≡ take n xs
take_append-le zero xs ys h = refl
take_append-le (suc n) [] ys h = elim h [ ]
take_append-le (suc n) (x ∷ xs) ys h = ap (◌∷◌ x) (take_append-le n xs ys (omega arith))

take_append-ge :
    (n : ℕ) (xs ys : Bytes) → length xs ≤ n → take n (xs ++ ys) ≡ xs ++ take (n - length xs) ys
take_append-ge n [] ys h = ap (λ k. take k ys) (omega arith)
take_append-ge zero (x ∷ xs) ys h = elim h [ ]
take_append-ge (suc n) (x ∷ xs) ys h =
    ap (◌∷◌ x) (take_append-ge n xs ys (omega arith) ∙ ap (λ k. xs ++ take k ys) (omega arith))

put-append :
    (xs ys sent : Bytes) (room : Option ℕ)
    → (let (r, w) = put xs sent room in continue r (λ _. write_all ys) w) ≡ put (xs ++ ys) sent room
unfolding put write_all
put-append xs ys sent none = rw append_assoc
put-append xs ys sent (some n) = elim (Bool-cases (ltb n (length xs))) [
  | inl full ↦ ground (arith, length-append xs ys, take_append-le n xs ys)
  | inr fits ↦ ground (
    arith,
    length-append xs ys,
    take_append-ge n xs ys,
    append_assoc sent xs ys,
    append_assoc sent xs (take (n - length xs) ys),
  )
]

-- Two writes in a row are one write of both parts, failures included.
pub write_all-append :
    (xs ys : Bytes) (w : Writer) → (write_all xs >> write_all ys) w ≡ write_all (xs ++ ys) w
unfolding write_all
write_all-append xs ys w = put-append xs ys w.sent w.room

-- A write that succeeded is on the wire.
pub put-eq-ok :
    (bytes sent : Bytes) (room : Option ℕ)
    → (put bytes sent room).0 ≡ ok tt
    → (put bytes sent room).1.sent ≡ sent ++ bytes
unfolding put
put-eq-ok bytes sent none h = refl
put-eq-ok bytes sent (some n) h = ground arith
