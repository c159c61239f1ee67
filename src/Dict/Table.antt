-- ===== src/Dict/Table.antt =====
-- A `HashMap` as its callers see it: a dictionary without the order of its entries. The order in which a
-- map gives its keys is not fixed; sorted, they are a function of the table.
use mathlib.Core.Quot
use mathlib.Core.Quot.{Quot, Quot-set}
use pgmoneta_mcp.Prelude.{
  ◌≤◌, ◌≡◌, refl, sym, ap, ◌∙◌, true, Option, none, some, List, [], ◌∷◌, arith, if◌then◌else◌,
  Bool-cases, inl, inr,
}
use pgmoneta_mcp.Bytes.{Bytes, eq_bytes, eq_bytes→eq, eq_bytes_refl}
use pgmoneta_mcp.Dict.{
  Dict, lookup, without, insert, keys, count, once, count-keys, lookup-without_self,
  lookup-without_ne, lookup-insert_self, lookup-insert_ne,
}
use pgmoneta_mcp.Dict.Sort.{sort, le_bytes, IsAscending, sort-IsAscending, count-sort}

le_bytes-antisym : (s t : Bytes) → le_bytes s t ≡ true → le_bytes t s ≡ true → s ≡ t
unfolding le_bytes
le_bytes-antisym [] [] h k = refl
le_bytes-antisym [] (y ∷ t) h k = cc
le_bytes-antisym (x ∷ s) [] h k = cc
le_bytes-antisym (x ∷ s) (y ∷ t) h k =
    ap (λ n. n ∷ s) (ground arith)
    ∙ ap (λ r. y ∷ r) (le_bytes-antisym s t (ground arith) (ground arith))

le_bytes_trans : (s t u : Bytes) → le_bytes s t ≡ true → le_bytes t u ≡ true → le_bytes s u ≡ true
unfolding le_bytes
le_bytes_trans [] t u h k = refl
le_bytes_trans (x ∷ s) [] u h k = cc
le_bytes_trans (x ∷ s) (y ∷ t) [] h k = cc
le_bytes_trans (x ∷ s) (y ∷ t) (z ∷ u) h k = ground (arith, le_bytes_trans s t u)

le_bytes_refl : (s : Bytes) → le_bytes s s ≡ true
unfolding le_bytes
le_bytes_refl [] = refl
le_bytes_refl (x ∷ s) = ground (arith, le_bytes_refl s)

-- The first text of an ascending list is at most each of its texts.
first_le :
    (y x : Bytes) (ys : List Bytes)
    → IsAscending (y ∷ ys)
    → 1 ≤ count x (y ∷ ys)
    → le_bytes y x ≡ true
unfolding count
first_le y x [] h n = ground (arith, eq_bytes→eq y x, le_bytes_refl x)
first_le y x (z ∷ zs) (le, h) n = elim (Bool-cases (eq_bytes y x)) [
  | inl e ↦ rw (eq_bytes→eq y x e) (le_bytes_refl x)
  | inr e ↦ le_bytes_trans y z x le (first_le z x zs h (rw e at n))
]

IsAscending-tail : (x : Bytes) (xs : List Bytes) → IsAscending (x ∷ xs) → IsAscending xs
IsAscending-tail x [] h = tt
IsAscending-tail x (y ∷ ys) (le, h) = h

count_self : (x : Bytes) (xs : List Bytes) → 1 ≤ count x (x ∷ xs)
unfolding count
count_self x xs = rw (eq_bytes_refl x) (omega arith)

count-tail :
    (u x : Bytes) (xs ys : List Bytes)
    → count u (x ∷ xs) ≡ count u (x ∷ ys)
    → count u xs ≡ count u ys
unfolding count
count-tail u x xs ys h = ground arith

not_empty : (x : Bytes) (xs : List Bytes) → count x [] ≡ count x (x ∷ xs) → ⊥
unfolding count
not_empty x xs h = let one = count_self x xs in omega (arith, h, one)

-- Ascending lists with the same texts, each as often, are the same.
pub ascending_unique :
    (xs ys : List Bytes)
    → IsAscending xs
    → IsAscending ys
    → ((u : Bytes) → count u xs ≡ count u ys)
    → xs ≡ ys
ascending_unique [] [] hx hy h = refl
ascending_unique [] (y ∷ ys) hx hy h = absurd (not_empty y ys (h y))
ascending_unique (x ∷ xs) [] hx hy h = absurd (not_empty x xs (sym (h x)))
ascending_unique (x ∷ xs) (y ∷ ys) hx hy h =
    let same : x ≡ y =
      le_bytes-antisym x y (first_le x y xs hx (omega (arith, h y, count_self y ys)))
        (first_le y x ys hy (omega (arith, h x, count_self x xs))) in
    let h' = rw same at h in
    ap (λ z. z ∷ xs) same
    ∙ ap (λ zs. y ∷ zs)
        (ascending_unique xs ys (IsAscending-tail x xs hx) (IsAscending-tail y ys hy)
          (λ u. count-tail u y xs ys (h' u)))

-- Each key has the same value, or none, in both.
abbrev pub SameEntries : Dict Bytes → Dict Bytes → Type 0
SameEntries d e = (k : Bytes) → lookup k d ≡ lookup k e

abbrev pub Table : Type 0
Table = Quot SameEntries

abbrev pub table : Dict Bytes → Table
table = Quot.mk

unfoldable pub find : Bytes → Table → Option Bytes
find k = Quot.lift (hlevel) (lookup k) λ d e h. h k

pub SameEntries-insert :
    (k v : Bytes) (d e : Dict Bytes) → SameEntries d e → SameEntries (insert k v d) (insert k v e)
SameEntries-insert k v d e h i = elim (Bool-cases (eq_bytes k i)) [
  | inl same ↦
      rw (← eq_bytes→eq k i same) (lookup-insert_self k v d ∙ sym (lookup-insert_self k v e))
  | inr other ↦ lookup-insert_ne k i v d other ∙ h i ∙ sym (lookup-insert_ne k i v e other)
]

pub SameEntries-without :
    (k : Bytes) (d e : Dict Bytes) → SameEntries d e → SameEntries (without k d) (without k e)
SameEntries-without k d e h i = elim (Bool-cases (eq_bytes k i)) [
  | inl same ↦ rw (← eq_bytes→eq k i same) (lookup-without_self k d ∙ sym (lookup-without_self k e))
  | inr other ↦ lookup-without_ne k i d other ∙ h i ∙ sym (lookup-without_ne k i e other)
]

pub sorted_keys_same : (d e : Dict Bytes) → SameEntries d e → sort (keys d) ≡ sort (keys e)
sorted_keys_same d e h =
    ascending_unique (sort (keys d)) (sort (keys e)) (sort-IsAscending (keys d))
      (sort-IsAscending (keys e))
      λ u.
        count-sort u (keys d)
        ∙ count-keys u d
        ∙ ap once (h u)
        ∙ sym (count-keys u e)
        ∙ sym (count-sort u (keys e))

unfoldable pub put : Bytes → Bytes → Table → Table
put k v =
    Quot.lift Quot-set (λ d. table (insert k v d))
      λ d e h. Quot.sound (SameEntries-insert k v d e h)

unfoldable pub remove : Bytes → Table → Table
remove k =
    Quot.lift Quot-set (λ d. table (without k d)) λ d e h. Quot.sound (SameEntries-without k d e h)

-- The sorted keys.
unfoldable pub names : Table → List Bytes
names = Quot.lift (hlevel) (λ d. sort (keys d)) sorted_keys_same

pub table_ext : (t u : Table) → ((k : Bytes) → find k t ≡ find k u) → t ≡ u
unfolding find
table_ext = Quot.ind (λ _. hlevel Quot-set) λ d. Quot.ind (λ _. hlevel Quot-set) λ e. Quot.sound

pub find-put :
    (k i v : Bytes) (t : Table) → find i (put k v t) ≡ (if eq_bytes k i then some v else find i t)
unfolding find put
find-put k i v =
    Quot.ind (λ _. hlevel)
      λ d. elim (Bool-cases (eq_bytes k i)) [
        | inl same ↦ rw (same, ← eq_bytes→eq k i same) (lookup-insert_self k v d)
        | inr other ↦ rw other (lookup-insert_ne k i v d other)
      ]

pub find-remove :
    (k i : Bytes) (t : Table) → find i (remove k t) ≡ (if eq_bytes k i then none else find i t)
unfolding find remove
find-remove k i =
    Quot.ind (λ _. hlevel)
      λ d. elim (Bool-cases (eq_bytes k i)) [
        | inl same ↦ rw (same, ← eq_bytes→eq k i same) (lookup-without_self k d)
        | inr other ↦ rw other (lookup-without_ne k i d other)
      ]
