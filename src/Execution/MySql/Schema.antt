-- ===== src/Execution/MySql/Schema.antt =====
-- The migration and the validation of the schema in execution/mysql_cache.go.
pub mod Contract
pub mod Recovery
use flowkit.Base.{
  ℕ, String, Bool, true, false, not, ◌&&◌, Option, none, some, List, [], ◌∷◌, ◌++◌, if◌then◌else◌,
  str_eq, ◌==◌, ltb, length, take,
}
use flowkit.Base.Int.{ℤ, pos, eqb_ℤ}
use flowkit.Base.Assoc.{Assoc, lookup, insert}
use flowkit.Base.Text.{codes}
use flowkit.Errors.{message, Result}
use flowkit.Exec.{Exec, ◌>>=◌, ◌>>◌, pure, raise}
use flowkit.Execution.MySql.{Name, Column, Server, quoted, versions_table, component_of}

-- The columns that a cache table has, with their type, nullability and length.
abbrev pub expected_columns : Assoc (String × (String × String))
expected_columns =
    ("key_digest", ("varbinary", ("NO", "64")))
    ∷ ("step", ("mediumtext", ("NO", "16777215")))
    ∷ ("version", ("mediumtext", ("NO", "16777215")))
    ∷ ("input_digest", ("varbinary", ("NO", "64")))
    ∷ ("value_digest", ("varbinary", ("NO", "64")))
    ∷ ("value_json", ("mediumtext", ("NO", "16777215")))
    ∷ ("created_at", ("bigint", ("NO", "NULL")))
    ∷ []

unfoldable pub seen_columns :
    List Column → Assoc (String × (String × String)) → Assoc (String × (String × String))
seen_columns [] seen = seen
seen_columns (c ∷ cs) seen =
    seen_columns cs (insert c.name (c.data_type, (c.nullable, c.max_length)) seen)

abbrev same_type : String × (String × String) → Option (String × (String × String)) → Bool
same_type want none = false
same_type (t, (n, l)) (some (t', (n', l'))) = str_eq t t' && (str_eq n n' && str_eq l l')

unfoldable pub all_expected :
    Assoc (String × (String × String)) → Assoc (String × (String × String)) → Bool
all_expected [] seen = true
all_expected ((column, want) ∷ rest) seen =
    same_type want (lookup column seen) && all_expected rest seen

module _ {W : Type 0} (s : Server W) (table : Name) where
  abbrev mismatch : {A : Type 0} → Exec W A
  mismatch = raise (message "mysql cache: table %q does not match schema version 1")

  abbrev check_primary : ℕ → Exec W (Unit {0})
  check_primary n = if n == 1 then pure tt else mismatch

  abbrev check_columns : List Column → Exec W (Unit {0})
  check_columns rows =
      if not (length (seen_columns rows []) == 7)
      then mismatch
      else if not (all_expected expected_columns (seen_columns rows []))
      then mismatch
      else s.primary_columns table >>= check_primary

  -- validateMySQLCacheSchemaV1
  unfoldable pub validate_schema : Exec W (Unit {0})
  unfolding seen_columns all_expected lookup insert
  validate_schema = s.columns table >>= check_columns

  abbrev create : Bool → Exec W (Unit {0})
  create true = pure tt
  create false = s.create_table (quoted table)

  -- A version of 0: the table is made where it is missing, checked, and only then final.
  abbrev initialize : Bool → Exec W (Unit {0})
  initialize exists =
      create exists >> (validate_schema >> s.finish_version (pos 1) (component_of table))

  abbrev check_table : Bool → Exec W (Unit {0})
  check_table true = validate_schema
  check_table false =
      raise (message "mysql cache: schema version %d is recorded but table %q is missing")

  abbrev upgrade : Bool → ℤ → Exec W (Unit {0})
  upgrade exists version =
      if eqb_ℤ version (pos 0)
      then initialize exists
      else if eqb_ℤ version (pos 1)
      then check_table exists
      else raise (message "mysql cache: unsupported schema version %d for %q (want %d)")

  abbrev at_version : Bool → Option ℤ → Exec W (Unit {0})
  at_version exists (some version) = upgrade exists version
  at_version true none =
      raise (message "mysql cache: schema version component %q is missing for existing table %q")
  at_version false none = s.insert_version (component_of table) >> upgrade false (pos 0)

  abbrev read : Bool → Exec W (Unit {0})
  read exists = s.read_version (component_of table) >>= at_version exists

  -- Whether the table of versions exists, and whether the cache's own does.
  abbrev prepare : Bool → Bool → Exec W (Unit {0})
  prepare true exists = read exists
  prepare false true = raise (
      message
        "mysql cache: unversioned prototype table %q detected; recreate it or migrate it explicitly")
  prepare false false = s.create_versions >> read false

  abbrev inspect_table : ℕ → Exec W (Unit {0})
  inspect_table versions =
      s.count_tables table >>= λ tables. prepare (ltb 0 versions) (ltb 0 tables)

  unfoldable pub inspect : Exec W (Unit {0})
  unfolding validate_schema
  inspect = s.count_tables versions_table >>= inspect_table

  abbrev release : Name → Result (Unit {0}) × W → Result (Unit {0}) × W
  release lock (r, w) = (r, s.release_lock lock w)

  abbrev under_lock : Name → Option ℤ → Exec W (Unit {0})
  under_lock lock none = raise (message "acquire schema lock %q: timed out")
  under_lock lock (some n) =
      if eqb_ℤ n (pos 1)
      then (λ w. release lock (inspect w))
      else raise (message "acquire schema lock %q: timed out")

  module _ (hash : String → String) where
    -- mysqlCacheMigrationLock
    abbrev pub lock_of : String → Name
    lock_of name = codes "flowkit.cache." ++ take 48 (codes (hash name))

    abbrev in_database : String → Exec W (Unit {0})
    in_database name = s.get_lock (lock_of name) >>= under_lock (lock_of name)

    unfoldable pub migrate : Exec W (Unit {0})
    unfolding inspect
    migrate = s.conn >> (s.database >>= in_database)
