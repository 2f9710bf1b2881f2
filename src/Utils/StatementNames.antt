-- ===== src/Utils/StatementNames.antt =====
-- src/utils/statement-names.ts: createStatementNameGenerator.
-- A text is the list of its UTF-16 code units. A Map is the list of its entries in the order of
-- insertion. A name `ppb_<namespace>_<seq>` is its `seq`: the namespace is the generator's own.
pub mod Names
pub mod Bounds
mod Tests
use prisma_pglite_bridge.Prelude.{
  ℕ, zero, suc, ◌+◌, ◌-◌, ltb, leb, ◌==◌, not, ◌&&◌, ◌||◌, if◌then◌else◌, Bool, true, false, Option,
  none, some, List, [], ◌∷◌, ◌++◌, length,
}
use prisma_pglite_bridge.Duplex.CopyIn.{Text, same, is_space, is_upper, is_lower, is_digit}

abbrev pub fold : ℕ → ℕ
fold c = if is_upper c then c + 32 else c

-- `\b` behind a keyword.
abbrev pub at_boundary : Text → Bool
at_boundary [] = true
at_boundary (c ∷ cs) = not (is_upper c || is_lower c || is_digit c || c == 0x5f)

abbrev pub has_keyword : Text → Text → Bool
has_keyword [] cs = at_boundary cs
has_keyword (k ∷ ks) [] = false
has_keyword (k ∷ ks) (c ∷ cs) = fold c == k && has_keyword ks cs

abbrev pub keywords : List Text
keywords =
    (115 ∷ 101 ∷ 108 ∷ 101 ∷ 99 ∷ 116 ∷ [])
    ∷ (105 ∷ 110 ∷ 115 ∷ 101 ∷ 114 ∷ 116 ∷ [])
    ∷ (117 ∷ 112 ∷ 100 ∷ 97 ∷ 116 ∷ 101 ∷ [])
    ∷ (100 ∷ 101 ∷ 108 ∷ 101 ∷ 116 ∷ 101 ∷ [])
    ∷ (119 ∷ 105 ∷ 116 ∷ 104 ∷ [])
    ∷ (109 ∷ 101 ∷ 114 ∷ 103 ∷ 101 ∷ [])
    ∷ (118 ∷ 97 ∷ 108 ∷ 117 ∷ 101 ∷ 115 ∷ [])
    ∷ []

abbrev pub some_keyword : List Text → Text → Bool
some_keyword [] cs = false
some_keyword (k ∷ ks) cs = has_keyword k cs || some_keyword ks cs

-- `CACHEABLE_SQL.test(sql)`
pub is_cacheable : Text → Bool
is_cacheable [] = some_keyword keywords []
is_cacheable (c ∷ cs) = if is_space c then is_cacheable cs else some_keyword keywords (c ∷ cs)

abbrev pub includes : ℕ → Text → Bool
includes k [] = false
includes k (c ∷ cs) = c == k || includes k cs

abbrev pub Entries : Type 0
Entries = List (Text × ℕ)

pub get : Text → Entries → Option ℕ
get sql [] = none
get sql ((k, v) ∷ es) = if same k sql then some v else get sql es

pub delete : Text → Entries → Entries
delete sql [] = []
delete sql ((k, v) ∷ es) = if same k sql then es else (k, v) ∷ delete sql es

pub record Generator : Type 0 where
  pub capacity : ℕ
  pub min_usages : ℕ
  pub counts : Entries
  pub names : Entries
  pub seq : ℕ

pub new_generator : ℕ → ℕ → Generator
new_generator capacity min_usages = record {
  capacity = capacity;
  min_usages = min_usages;
  counts = [];
  names = [];
  seq = 0;
}

-- The oldest entry is displaced.
abbrev pub drop_oldest : Entries → Entries
drop_oldest [] = []
drop_oldest (e ∷ es) = es

abbrev pub count_after : Option ℕ → ℕ
count_after none = 1
count_after (some n) = n + 1

-- A sighting below the gate.
pub count_usage : Generator → Text → ℕ → Generator
count_usage g sql count =
    let counts = delete sql g.counts ++ (sql, count) ∷ [] in
    record g { counts = if ltb g.capacity (length counts) then drop_oldest counts else counts }

-- `onEvict`
abbrev pub evicted : Entries → List ℕ
evicted [] = []
evicted ((k, v) ∷ es) = v ∷ []

pub promote : Generator → Text → Generator × Option ℕ × List ℕ
promote g sql =
    let full = leb g.capacity (length g.names) in
    (
      record g {
        counts = delete sql g.counts;
        names = (if full then drop_oldest g.names else g.names) ++ (sql, g.seq) ∷ [];
        seq = g.seq + 1;
      },
      some g.seq,
      if full then evicted g.names else [],
    )

-- On `names.get(sql)`.
pub name_at : Option ℕ → Generator → Text → Generator × Option ℕ × List ℕ
unfolding promote count_usage
name_at (some cached) g sql =
    (record g { names = delete sql g.names ++ (sql, cached) ∷ [] }, some cached, [])
name_at none g sql =
    let count = count_after (get sql g.counts) in
    if ltb count g.min_usages then (count_usage g sql count, none, []) else promote g sql

-- The function that createStatementNameGenerator returns.
pub name_of : Generator → Text → Generator × Option ℕ × List ℕ
unfolding name_at
name_of g sql =
    if not (is_cacheable sql)
    then (g, none, [])
    else if includes 0x3b sql
    then (g, none, [])
    else name_at (get sql g.names) g sql

-- The names that a run of queries gets.
pub issued : Generator → List Text → Entries
issued g [] = []
issued g (sql ∷ sqls) =
    let (g', name, gone) = name_of g sql in
    let rest = issued g' sqls in elim name [ none ↦ rest | some n ↦ (sql, n) ∷ rest ]

pub run : Generator → List Text → Generator
run g [] = g
run g (sql ∷ sqls) = run (name_of g sql).0 sqls
