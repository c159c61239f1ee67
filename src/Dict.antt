-- ===== src/Dict.antt =====
-- A `HashMap` with texts as keys: an association list, of which the first entry of a key counts.
pub mod Sort
pub mod Table
use pgmoneta_mcp.Prelude.{
  ℕ, zero, suc, Bool-cases, inl, inr, ◌≡◌, ◌≢◌, refl, Bool, true, false, Option, none, some, List,
  [], ◌∷◌, arith, if◌then◌else◌,
}
use pgmoneta_mcp.Bytes.{Bytes, eq_bytes, eq_bytes→eq, eq_bytes_refl}

abbrev pub Dict : Type 0 → Type 0
Dict V = List (Bytes × V)

-- The texts but this one.
unfoldable pub others : Bytes → List Bytes → List Bytes
others k [] = []
others k (t ∷ ts) = let rest = others k ts in if eq_bytes k t then rest else t ∷ rest

-- How often a text is in the list.
unfoldable pub count : Bytes → List Bytes → ℕ
count u [] = 0
count u (t ∷ ts) = let rest = count u ts in if eq_bytes t u then suc rest else rest

count-others_self : (k : Bytes) (ts : List Bytes) → count k (others k ts) ≡ 0
unfolding count others
count-others_self k [] = refl
count-others_self k (t ∷ ts) =
    ground (arith, count-others_self k ts, eq_bytes→eq t k, eq_bytes→eq k t, eq_bytes_refl k)

count-others_ne :
    (k u : Bytes) (ts : List Bytes) → eq_bytes k u ≡ false → count u (others k ts) ≡ count u ts
unfolding count others
count-others_ne k u [] h = refl
count-others_ne k u (t ∷ ts) h =
    ground (arith, count-others_ne k u ts h, eq_bytes→eq t u, eq_bytes→eq k t)

module _ {V : Type 0} where
  -- `get`
  unfoldable pub lookup : Bytes → Dict V → Option V
  lookup k [] = none
  lookup k ((j, v) ∷ d) = if eq_bytes j k then some v else lookup k d

  -- `remove`
  unfoldable pub without : Bytes → Dict V → Dict V
  without k [] = []
  without k ((j, v) ∷ d) = let rest = without k d in if eq_bytes j k then rest else (j, v) ∷ rest

  -- `insert`: the entry of the key is replaced.
  unfoldable pub insert : Bytes → V → Dict V → Dict V
  unfolding without
  insert k v d = (k, v) ∷ without k d

  -- Each key once.
  unfoldable pub keys : Dict V → List Bytes
  keys [] = []
  keys ((k, v) ∷ d) = k ∷ others k (keys d)

  pub lookup-without_self : (k : Bytes) (d : Dict V) → lookup k (without k d) ≡ none
  unfolding lookup without
  lookup-without_self k [] = refl
  lookup-without_self k ((j, v) ∷ d) = ground (arith, lookup-without_self k d)

  pub lookup-without_ne :
      (k i : Bytes) (d : Dict V) → eq_bytes k i ≡ false → lookup i (without k d) ≡ lookup i d
  unfolding lookup without
  lookup-without_ne k i [] h = refl
  lookup-without_ne k i ((j, v) ∷ d) h =
      ground (arith, lookup-without_ne k i d h, eq_bytes→eq j k, eq_bytes→eq j i)

  pub lookup-insert_self : (k : Bytes) (v : V) (d : Dict V) → lookup k (insert k v d) ≡ some v
  unfolding lookup insert
  lookup-insert_self k v d = rw (eq_bytes_refl k) refl

  pub lookup-insert_ne :
      (k i : Bytes) (v : V) (d : Dict V)
      → eq_bytes k i ≡ false
      → lookup i (insert k v d) ≡ lookup i d
  unfolding lookup insert
  lookup-insert_ne k i v d h = rw h (lookup-without_ne k i d h)

  abbrev pub once : Option V → ℕ
  once none = 0
  once (some v) = 1

  pub count-keys : (u : Bytes) (d : Dict V) → count u (keys d) ≡ once (lookup u d)
  unfolding count keys lookup
  count-keys u [] = refl
  count-keys u ((k, v) ∷ d) = elim (Bool-cases (eq_bytes k u)) [
    | inl e ↦ rw (e, eq_bytes→eq k u e, count-others_self u (keys d)) refl
    | inr e ↦ rw (e, count-others_ne k u (keys d) e) (count-keys u d)
  ]
