-- ===== src/Utils/StatementNames/Tests.antt =====
-- Runs of src/utils/statement-names.ts with room for one name.
use prisma_pglite_bridge.Prelude.{ℕ, ◌<◌, ◌≡◌, refl, List, [], ◌∷◌, arith}
use prisma_pglite_bridge.Duplex.CopyIn.{Text}
use prisma_pglite_bridge.Utils.StatementNames.{
  Generator, new_generator, issued, run, name_of, name_at, promote, count_usage, get, delete,
  is_cacheable,
}
use prisma_pglite_bridge.Utils.StatementNames.Names.{IsNaming, issued-IsNaming}
use prisma_pglite_bridge.Utils.StatementNames.Bounds.{IsBounded, run-IsBounded}

-- `Values a` and `VALUES b`.
abbrev first_sql : Text
first_sql = 86 ∷ 97 ∷ 108 ∷ 117 ∷ 101 ∷ 115 ∷ 32 ∷ 97 ∷ []

abbrev second_sql : Text
second_sql = 86 ∷ 65 ∷ 76 ∷ 85 ∷ 69 ∷ 83 ∷ 32 ∷ 98 ∷ []

-- The first is displaced by the second and named anew.
abbrev queries : List Text
queries = first_sql ∷ first_sql ∷ first_sql ∷ second_sql ∷ second_sql ∷ first_sql ∷ first_sql ∷ []

abbrev small : Generator
small = record { capacity = 1; min_usages = 2; counts = []; names = []; seq = 0 }

small-new_generator : new_generator 1 2 ≡ small
unfolding new_generator
small-new_generator = refl

issued-queries :
    issued small queries ≡ (first_sql, 0) ∷ (first_sql, 0) ∷ (second_sql, 1) ∷ (first_sql, 2) ∷ []
unfolding issued name_of name_at promote count_usage get delete is_cacheable
issued-queries = refl

issued-IsNaming_example :
    (after : ℕ → Text) × ((q : ℕ) → q < 0 → after q ≡ []) × IsNaming after (issued small queries)
issued-IsNaming_example =
    issued-IsNaming (λ q. []) small queries (record { naming = tt; below = tt })

run-IsBounded_example : IsBounded (run small queries)
run-IsBounded_example = run-IsBounded small queries (omega arith) (omega arith, omega arith)
