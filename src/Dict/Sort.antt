-- ===== src/Dict/Sort.antt =====
-- `sort_unstable` on texts: equal texts cannot be told apart, so that any sort gives the same list.
use pgmoneta_mcp.Prelude.{
  suc, ap, ◌∙◌, ◌≡◌, refl, Bool, true, false, ◌&&◌, ◌||◌, List, [], ◌∷◌, arith, ltb, ◌==◌,
  if◌then◌else◌,
}
use pgmoneta_mcp.Bytes.{Bytes, eq_bytes}
use pgmoneta_mcp.Dict.{count}

-- Byte by byte, and a prefix first.
unfoldable pub le_bytes : Bytes → Bytes → Bool
le_bytes [] t = true
le_bytes (x ∷ s) [] = false
le_bytes (x ∷ s) (y ∷ t) = ltb x y || (x == y && le_bytes s t)

unfoldable pub insert_sorted : Bytes → List Bytes → List Bytes
insert_sorted s [] = s ∷ []
insert_sorted s (t ∷ ts) =
    let rest = insert_sorted s ts in if le_bytes s t then s ∷ t ∷ ts else t ∷ rest

unfoldable pub sort : List Bytes → List Bytes
sort [] = []
sort (s ∷ ts) = insert_sorted s (sort ts)

le_bytes_total : (s t : Bytes) → le_bytes s t ≡ false → le_bytes t s ≡ true
unfolding le_bytes
le_bytes_total [] t h = cc
le_bytes_total (x ∷ s) [] h = refl
le_bytes_total (x ∷ s) (y ∷ t) h = ground (arith, le_bytes_total s t)

-- Each text is at most the next one.
abbrev pub IsAscending : List Bytes → Type 0
IsAscending [] = Unit
IsAscending (s ∷ []) = Unit
IsAscending (s ∷ t ∷ ts) = (le_bytes s t ≡ true) × IsAscending (t ∷ ts)

insert_sorted-IsAscending :
    (s : Bytes) (ts : List Bytes) → IsAscending ts → IsAscending (insert_sorted s ts)
unfolding insert_sorted
insert_sorted-IsAscending s [] h = tt
insert_sorted-IsAscending s (t ∷ []) h = ground (arith, le_bytes_total s t)
insert_sorted-IsAscending s (t ∷ u ∷ ts) (p, h) =
    ground (arith, le_bytes_total s t, insert_sorted-IsAscending s (u ∷ ts) h)

pub sort-IsAscending : (ts : List Bytes) → IsAscending (sort ts)
unfolding sort
sort-IsAscending [] = tt
sort-IsAscending (s ∷ ts) = insert_sorted-IsAscending s (sort ts) (sort-IsAscending ts)

count-insert_sorted :
    (u s : Bytes) (ts : List Bytes) → count u (insert_sorted s ts) ≡ count u (s ∷ ts)
unfolding insert_sorted count
count-insert_sorted u s [] = refl
count-insert_sorted u s (t ∷ ts) = ground (arith, count-insert_sorted u s ts)

pub count-sort : (u : Bytes) (ts : List Bytes) → count u (sort ts) ≡ count u ts
unfolding sort count
count-sort u [] = refl
count-sort u (s ∷ ts) =
    count-insert_sorted u s (sort ts)
    ∙ ap (λ n. if eq_bytes s u then suc n else n) (count-sort u ts)
