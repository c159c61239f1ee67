-- ===== src/Tests/Threads.antt =====
-- Two threads that derive keys as in src/security.rs, one step each.
use pgmoneta_mcp.Prelude.{◌≤◌, ◌≡◌, ◌⊎◌, refl, true, false, none, List, [], ◌∷◌, map}
use pgmoneta_mcp.Bytes.{Bytes, codes}
use pgmoneta_mcp.Security.Kdf.{cached_key}
use pgmoneta_mcp.Security.Kdf.Threads.{
  asking, looking, missed, Process, can_go, advance, here, there, Step, Steps, stay, next,
}
use pgmoneta_mcp.Security.Kdf.Threads.Answers.{request_of, start, IsSound, Steps-IsSound}
use pgmoneta_mcp.Security.Kdf.Threads.Guards.{all_guards}
use pgmoneta_mcp.Security.Kdf.Threads.Ends.{answered, Steps-progress, Finishes, Steps-Finishes}
use pgmoneta_mcp.Tests.{crypto}

abbrev requests : List (Bytes × Bytes)
requests = (codes "p", codes "s") ∷ (codes "q", codes "s") ∷ []

-- The first has looked into the empty cache, and the second looks into it.
abbrev second_looks : Process
second_looks = record {
  threads = missed (codes "p") (codes "s") ∷ looking (codes "q") (codes "s") ∷ [];
  mutex = record { locked = true; cache = none };
}

steps : Steps crypto (start requests none) 3 second_looks
unfolding advance cached_key can_go
steps =
    next
      (next
        (next stay (
          here (asking (codes "p") (codes "s")) (asking (codes "q") (codes "s") ∷ [])
            (record { locked = false; cache = none }) refl))
        (here (looking (codes "p") (codes "s")) (asking (codes "q") (codes "s") ∷ [])
          (record { locked = true; cache = none }) refl))
      (there (missed (codes "p") (codes "s"))
        (here (asking (codes "q") (codes "s")) [] (record { locked = false; cache = none }) refl))

Steps-IsSound_example :
    IsSound crypto second_looks × (map request_of second_looks.threads ≡ requests)
Steps-IsSound_example = Steps-IsSound crypto requests none 3 second_looks tt steps

Steps-Finishes_example : Finishes crypto requests 3 second_looks
Steps-Finishes_example = Steps-Finishes crypto requests none 3 second_looks tt steps

Steps-progress_example :
    (all_guards second_looks.threads ≤ 1)
    × (((u : Process) × Step crypto second_looks u)
        ⊎ (second_looks.threads ≡ map (answered crypto) requests))
Steps-progress_example = Steps-progress crypto requests none 3 second_looks tt steps
