-- ===== src/Admin/Listing.antt =====
-- `list_users` of src/bin/admin.rs: the users of the registry, each once and in order.
use pgmoneta_mcp.Prelude.{
  ℕ, ◌≡◌, true, false, refl, sym, ap, ◌∙◌, Option, none, some, List, [], ◌++◌, inl, inr,
}
use pgmoneta_mcp.Bytes.{Bytes, codes}
use pgmoneta_mcp.Result.{Result, ok}
use pgmoneta_mcp.Dict.{keys, count, once, count-keys}
use pgmoneta_mcp.Dict.Sort.{IsAscending, sort-IsAscending, count-sort}
use pgmoneta_mcp.Configuration.Files.{UserConf}
use pgmoneta_mcp.World.{World, Node}
use pgmoneta_mcp.Admin.{Ini, exists}
use pgmoneta_mcp.Admin.Files.{loaded_from}
use pgmoneta_mcp.Admin.Registry.{Registry, HasRegistry}
use pgmoneta_mcp.Admin.Stores.{Stores, loaded_is}
use pgmoneta_mcp.Admin.Console.{
  OutputFormat, AdminResponse, Shell, list_users, listed_users, print_response, response_lines,
  succeeded,
}

-- In order, and each user of the registry once.
abbrev pub Lists : List Bytes → Registry → Type 0
Lists users reg = IsAscending users × ((u : Bytes) → count u users ≡ once (reg u))

listed_users-Lists :
    (conf : UserConf) (reg : Registry) → HasRegistry conf reg → Lists (listed_users conf) reg
unfolding listed_users count
listed_users-Lists conf reg (users, section, h) =
    rw (listed_users, section)
      (
        sort-IsAscending (keys users),
        λ u. count-sort u (keys users) ∙ count-keys u users ∙ ap once (h u),
      )

module _ (to_string : AdminResponse → Result Bytes) (ini : Ini) (new_mode : ℕ) (path : Bytes)
    (format : OutputFormat) where
  -- The shell with the lines of a list of users printed.
  abbrev pub shown : List Bytes → Shell → Shell
  shown users s = record s {
    printed =
        s.printed
        ++ response_lines to_string format (record {
          command = codes "user ls";
          outcome = codes "success";
          users = some users;
          generated_password = none;
        });
  }

  exists-loaded :
      (w : World) (conf : UserConf)
      → loaded_from ini.from_str (w.files path) ≡ ok conf
      → exists path w ≡ true
  unfolding exists
  exists-loaded w conf h = by_node (w.files path) h
    where
      by_node :
          (n : Option Node)
          → loaded_from ini.from_str n ≡ ok conf
          → elim n [ none ↦ false | some x ↦ true ] ≡ true
      by_node none h = cc
      by_node (some x) h = refl

  -- Listing the users of a stored registry succeeds, prints them in ascending order and each once, and
  -- changes nothing else.
  pub list_users-Lists :
      (reg : Registry) (s : Shell)
      → Stores ini path s.world reg
      → (users : List Bytes) × (list_users to_string ini new_mode path format s
          ≡ (ok tt, shown users s))
        × Lists users reg
  unfolding list_users succeeded print_response count exists
  list_users-Lists reg s (inl (absent, empty)) =
      ([], rw (absent, exists) refl, (tt, λ u. ap once (sym (empty u))))
  list_users-Lists reg s (inr (conf, loads, holds)) =
      let there = exists-loaded s.world conf (loaded_is ini path s.world conf loads) in
      (listed_users conf, rw (there, loads) refl, listed_users-Lists conf reg holds)
