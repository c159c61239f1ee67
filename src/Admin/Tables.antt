-- ===== src/Admin/Tables.antt =====
-- The changes of src/bin/admin.rs as operations of a table, which has no order: what a map of the
-- standard library does not fix, the program does not show.
use pgmoneta_mcp.Prelude.{
  ◌≡◌, ◌≢◌, refl, sym, ap, ◌∙◌, Option, none, some, [], Option-cases, inl, inr,
}
use pgmoneta_mcp.Bytes.{Bytes}
use pgmoneta_mcp.Result.{Result, ok}
use pgmoneta_mcp.Dict.{Dict, lookup, without, insert, keys, lookup-insert_self}
use pgmoneta_mcp.Dict.Sort.{sort}
use pgmoneta_mcp.Dict.Table.{Table, table, find, put, remove, names}
use pgmoneta_mcp.Configuration.Files.{UserConf}
use pgmoneta_mcp.Admin.{admins, with_user, without_user, with_password}
use pgmoneta_mcp.Admin.Console.{listed_users}

-- An operation on the section of the administrators, with the password as it is stored.
pub data Edit : Type 0 where
  adding replacing : Bytes → Bytes → Edit
  removing : Bytes → Edit

abbrev pub edited : Edit → UserConf → Result UserConf
edited (adding user secret) conf = with_user user secret conf
edited (replacing user secret) conf = with_password user secret conf
edited (removing user) conf = without_user user conf

abbrev pub on_table : Edit → Table → Table
on_table (adding user secret) t = put user secret t
on_table (replacing user secret) t = put user secret t
on_table (removing user) t = remove user t

-- A new user is not in the table, and an old one is.
abbrev pub Allows : Edit → Table → Type 0
Allows (adding user secret) t = find user t ≡ none
Allows (replacing user secret) t = find user t ≢ none
Allows (removing user) t = find user t ≢ none

abbrev pub section_table : Option (Dict Bytes) → Table
section_table none = table []
section_table (some users) = table users

-- The table of the administrators.
abbrev pub admins_table : UserConf → Table
admins_table conf = section_table (lookup admins conf)

listed_users-names : (conf : UserConf) → listed_users conf ≡ names (admins_table conf)
unfolding listed_users names keys sort
listed_users-names conf = elim (Option-cases (lookup admins conf)) [
  | inl e ↦ rw (e, listed_users) refl
  | inr (users, e) ↦ rw (e, listed_users) refl
]

written_back :
    (users : Dict Bytes) (conf conf' : UserConf)
    → ok (insert admins users conf) ≡ ok conf'
    → admins_table conf' ≡ table users
written_back users conf conf' h =
    let same : insert admins users conf ≡ conf' = cc in
    ap section_table (ap (lookup admins) (sym same) ∙ lookup-insert_self admins users conf)

-- What an operation made of a configuration whose section is known.
edited-section :
    (e : Edit) (users : Dict Bytes) (conf conf' : UserConf)
    → lookup admins conf ≡ some users
    → edited e conf ≡ ok conf'
    → Allows e (table users) × (admins_table conf' ≡ on_table e (table users))
unfolding with_user with_password without_user find put remove
edited-section (adding user secret) users conf conf' section h =
    elim (Option-cases (lookup user users)) [
      | inl fresh ↦ (
        fresh,
        written_back (insert user secret users) conf conf' (rw (section, fresh, with_user) at h),
      )
      | inr (old, taken) ↦ let clash = rw (section, taken, with_user) at h in cc
    ]
edited-section (replacing user secret) users conf conf' section h =
    elim (Option-cases (lookup user users)) [
      | inl fresh ↦ let clash = rw (section, fresh, with_password) at h in cc
      | inr (old, taken) ↦ (
        λ x. cc,
        written_back (insert user secret users) conf conf'
            (rw (section, taken, with_password) at h),
      )
    ]
edited-section (removing user) users conf conf' section h =
    elim (Option-cases (lookup user users)) [
      | inl fresh ↦ let clash = rw (section, fresh, without_user) at h in cc
      | inr (old, taken) ↦ (
        λ x. cc,
        written_back (without user users) conf conf' (rw (section, taken, without_user) at h),
      )
    ]

no_section :
    (e : Edit) (conf conf' : UserConf) → lookup admins conf ≡ none → edited e conf ≡ ok conf' → ⊥
unfolding with_user with_password without_user
no_section (adding user secret) conf conf' section h =
    let clash = rw (section, with_user) at h in cc
no_section (replacing user secret) conf conf' section h =
    let clash = rw (section, with_password) at h in cc
no_section (removing user) conf conf' section h = let clash = rw (section, without_user) at h in cc

-- An operation that succeeds was allowed on the table of the administrators and is the same operation of
-- the table; and what is then listed are the sorted names of that table, whatever order the maps have.
pub edited-Table :
    (e : Edit) (conf conf' : UserConf)
    → edited e conf ≡ ok conf'
    → Allows e (admins_table conf)
      × (admins_table conf' ≡ on_table e (admins_table conf))
      × (listed_users conf' ≡ names (on_table e (admins_table conf)))
edited-Table e conf conf' h = elim (Option-cases (lookup admins conf)) [
  | inl absent ↦ absurd (no_section e conf conf' absent h)
  | inr (users, section) ↦
      let (allowed, same) = edited-section e users conf conf' section h in
      let here = ap section_table section in
      (rw here allowed, rw here same, listed_users-names conf' ∙ ap names (rw here same))
]
