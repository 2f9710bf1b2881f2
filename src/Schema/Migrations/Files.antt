-- ===== src/Schema/Migrations/Files.antt =====
-- The migrations directory (listMigrations, resolveMigrations and what they use in
-- src/schema/migrations.ts). The file system, the configuration and SHA-256 are parameters.
use prisma_pglite_bridge.Prelude.{
  ◌==◌, ◌&&◌, if◌then◌else◌, Bool, true, false, Option, none, some, List, [], ◌∷◌, ◌++◌, map,
  Result, ok, err,
}
use prisma_pglite_bridge.Duplex.CopyIn.{Text}

pub record MigrationFile : Type 0 where
  pub name : Text
  pub sql : Text
  pub checksum : Text

-- The digest of a text in lowercase hex.
abbrev pub Sha256 : Type 0
Sha256 = Text → Text

abbrev pub names_of : List MigrationFile → List Text
names_of files = map (λ (file : MigrationFile). file.name) files

-- `sql.replaceAll('\r\n', '\n')`
unfoldable pub crlf_to_lf : Text → Text
crlf_to_lf [] = []
crlf_to_lf (c ∷ []) = c ∷ []
crlf_to_lf (c ∷ d ∷ cs) = elim (c == 0x0d && d == 0x0a) [
  | true ↦ 0x0a ∷ crlf_to_lf cs
  | false ↦ c ∷ crlf_to_lf (d ∷ cs)
]

-- `sql.replace(/\r?\n/g, '\r\n')`
unfoldable pub lf_to_crlf : Text → Text
lf_to_crlf [] = []
lf_to_crlf (c ∷ []) = if c == 0x0a then 0x0d ∷ 0x0a ∷ [] else c ∷ []
lf_to_crlf (c ∷ d ∷ cs) = elim (c == 0x0d && d == 0x0a) [
  | true ↦ 0x0d ∷ 0x0a ∷ lf_to_crlf cs
  | false ↦ elim (c == 0x0a) [
    | true ↦ 0x0d ∷ 0x0a ∷ lf_to_crlf (d ∷ cs)
    | false ↦ c ∷ lf_to_crlf (d ∷ cs)
  ]
]

pub record FileSystem : Type 0 where
  pub exists_sync : Text → Bool
  pub readdir_sync : Text → List Text
  pub is_directory : Text → Bool
  pub read_file_sync : Text → Text
  pub join : Text → Text → Text
  pub dirname : Text → Text
  -- `sort((a, b) => a.localeCompare(b))`
  pub sorted : List Text → List Text

-- What loadConfigFromFile gives: nothing where it throws, is not there or reports an error.
pub record Config : Type 0 where
  pub migrations_path : Option Text
  pub schema : Option Text

-- A text that a condition takes for true.
abbrev pub truthy : Option Text → Option Text
truthy none = none
truthy (some []) = none
truthy (some (c ∷ cs)) = some (c ∷ cs)

-- `migration.sql`
abbrev pub script_name : Text
script_name =
    0x6d ∷ 0x69 ∷ 0x67 ∷ 0x72 ∷ 0x61 ∷ 0x74 ∷ 0x69 ∷ 0x6f ∷ 0x6e ∷ 0x2e ∷ 0x73 ∷ 0x71 ∷ 0x6c ∷ []

-- `migrations`
abbrev pub default_directory : Text
default_directory = 0x6d ∷ 0x69 ∷ 0x67 ∷ 0x72 ∷ 0x61 ∷ 0x74 ∷ 0x69 ∷ 0x6f ∷ 0x6e ∷ 0x73 ∷ []

pub record Options : Type 0 where
  pub sql : Option Text
  pub migrations_path : Option Text
  pub config_root : Option Text

-- MIGRATIONS_UNAVAILABLE, by its four messages.
pub data Unavailable : Type 0 where
  none_in : Text → Unavailable
  none_in_discovered : Text → Unavailable
  unresolved : Text → Unavailable
  no_config : Unavailable

module _ (fs : FileSystem) (sha256 : Sha256) where
  abbrev pub directories : Text → List Text → List Text
  directories path [] = []
  directories path (entry ∷ entries) = elim (fs.is_directory (fs.join path entry)) [
    | true ↦ entry ∷ directories path entries
    | false ↦ directories path entries
  ]

  -- The `flatMap`.
  unfoldable pub read_migrations : Text → List Text → List MigrationFile
  read_migrations path [] = []
  read_migrations path (entry ∷ entries) =
      let sql_path = fs.join (fs.join path entry) script_name in
      let rest = read_migrations path entries in
      if fs.exists_sync sql_path
      then (let text = fs.read_file_sync sql_path in
          record { name = entry; sql = text; checksum = sha256 text } ∷ rest)
      else rest

  unfoldable pub list_migrations : Text → List MigrationFile
  unfolding read_migrations
  list_migrations path =
      if fs.exists_sync path
      then read_migrations path (fs.sorted (directories path (fs.readdir_sync path)))
      else []

  abbrev pub path_of : Option Text → Option Text → Option Text
  path_of (some path) schema = some path
  path_of none none = none
  path_of none (some schema) = some (fs.join (fs.dirname schema) default_directory)

  unfoldable pub get_migrations_path : Option Config → Option Text
  get_migrations_path none = none
  get_migrations_path (some config) = path_of (truthy config.migrations_path) (truthy config.schema)

  abbrev pub listed :
      Unavailable → Text → List MigrationFile → Result Unavailable (Text × List MigrationFile)
  listed problem path [] = err problem
  listed problem path (m ∷ ms) = ok (path, m ∷ ms)

  abbrev pub resolve_discovered :
      Option Text → Option Text → Result Unavailable (Text × List MigrationFile)
  resolve_discovered (some path) root = listed (none_in_discovered path) path (list_migrations path)
  resolve_discovered none (some root) = err (unresolved root)
  resolve_discovered none none = err no_config

  abbrev pub resolve_from :
      Option Text → Option Config → Option Text → Result Unavailable (Text × List MigrationFile)
  resolve_from (some path) config root = listed (none_in path) path (list_migrations path)
  resolve_from none config root =
      resolve_discovered (truthy (get_migrations_path config)) (truthy root)

  -- `load` is the configuration found from the root.
  unfoldable pub resolve_migrations :
      (Option Text → Option Config) → Options → Result Unavailable (Text × List MigrationFile)
  unfolding list_migrations get_migrations_path
  resolve_migrations load o =
      resolve_from (truthy o.migrations_path) (load o.config_root) o.config_root

  -- `join('\n')`
  abbrev pub joined : List MigrationFile → Text
  joined [] = []
  joined (m ∷ []) = m.sql
  joined (m ∷ n ∷ ms) = m.sql ++ 0x0a ∷ joined (n ∷ ms)

  unfoldable pub read_migration_files : Text → Option Text
  read_migration_files path = elim (list_migrations path) [
    | [] ↦ none
    | m ∷ ms ↦ some (joined (m ∷ ms))
  ]

  abbrev pub sql_or :
      Option Text → Result Unavailable (Text × List MigrationFile) → Result Unavailable Text
  sql_or (some sql) resolved = ok sql
  sql_or none (ok (path, files)) = ok (joined files)
  sql_or none (err problem) = err problem

  unfoldable pub get_migration_sql :
      (Option Text → Option Config) → Options → Result Unavailable Text
  get_migration_sql load o = sql_or (truthy o.sql) (resolve_migrations load o)
