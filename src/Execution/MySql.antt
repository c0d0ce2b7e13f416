-- ===== src/Execution/MySql.antt =====
-- execution/mysql_cache.go: the cache's options and the statements that it sends.
-- The MySQL server and its driver are a parameter, as are the JSON encodings and SHA-256. A table's
-- name is its code points. The pool's sizes and the clock's reading are passed on as they are.
pub mod Schema
pub mod Entries
use flowkit.Base.{
  ℕ, String, Bool, true, false, not, ◌&&◌, ◌||◌, Option, none, some, List, [], ◌∷◌, ◌++◌,
  if◌then◌else◌, str_eq, ◌==◌, ltb, leb, length, take,
}
use flowkit.Base.Int.{ℤ, pos, pos_part, ltb_ℤ, leb_ℤ, eqb_ℤ}
use flowkit.Base.Assoc.{Assoc, lookup, insert}
use flowkit.Base.Text.{codes, trim_space, is_blank}
use flowkit.Errors.{Error, message, wrapped, Result, ok, err}
use flowkit.Exec.{Exec, ◌>>=◌, ◌>>◌, pure, raise}
use flowkit.Execution.Cache.{Key, Codec, digest, envelope, corrupt, is_own, opened_value}

abbrev pub Name : Type 0
Name = List ℕ

pub record Column : Type 0 where
  pub name : String
  pub data_type : String
  pub nullable : String
  pub max_length : String

pub record Row : Type 0 where
  pub key_digest : String
  pub step : String
  pub version : String
  pub input_digest : String
  pub value_digest : String
  pub value_json : String
  pub created_at : ℕ

-- The statements that the code sends. A table's name is quoted where a statement's text has it, and
-- as it is where it is a statement's argument.
pub record Server (W : Type 0) : Type 0 where
  -- db.Conn, SELECT DATABASE(), SELECT GET_LOCK, SELECT RELEASE_LOCK
  pub conn : Exec W (Unit {0})
  pub database : Exec W String
  pub get_lock : Name → Exec W (Option ℤ)
  pub release_lock : Name → W → W
  -- SELECT COUNT(*) FROM information_schema.tables
  pub count_tables : Name → Exec W ℕ
  pub create_versions : Exec W (Unit {0})
  -- SELECT, INSERT and UPDATE of flowkit_schema_version; none is sql.ErrNoRows
  pub read_version : Name → Exec W (Option ℤ)
  pub insert_version : Name → Exec W (Unit {0})
  pub finish_version : ℤ → Name → Exec W (Unit {0})
  pub create_table : Name → Exec W (Unit {0})
  -- information_schema.columns and information_schema.statistics
  pub columns : Name → Exec W (List Column)
  pub primary_columns : Name → Exec W ℕ
  -- the cache's own SELECT and INSERT
  pub select_value : Name → String → W → Result (Option String)
  pub upsert : Name → Row → W → Option Error × W

-- [A-Za-z_] and [A-Za-z0-9_$]
abbrev is_start : ℕ → Bool
is_start c = (leb 65 c && leb c 90) || (leb 97 c && leb c 122) || c == 95

abbrev is_part : ℕ → Bool
is_part c = is_start c || (leb 48 c && leb c 57) || c == 36

unfoldable pub all_parts : Name → Bool
all_parts [] = true
all_parts (c ∷ cs) = is_part c && all_parts cs

-- mysqlIdentifier: `^[A-Za-z_][A-Za-z0-9_$]{0,63}$`
unfoldable pub is_identifier : Name → Bool
unfolding all_parts
is_identifier [] = false
is_identifier (c ∷ cs) = is_start c && (all_parts cs && leb (length cs) 63)

-- quoteMySQLIdentifier, over a doubling of backticks
unfoldable pub doubled : Name → Name
doubled [] = []
doubled (c ∷ cs) = if c == 96 then 96 ∷ 96 ∷ doubled cs else c ∷ doubled cs

unfoldable pub quoted : Name → Name
unfolding doubled
quoted name = 96 ∷ (doubled name ++ 96 ∷ [])

abbrev pub medium_text_max : ℕ
medium_text_max = 16777215

abbrev pub versions_table : Name
versions_table = codes "flowkit_schema_version"

-- mysqlCacheSchemaComponent
abbrev pub component_of : Name → Name
component_of table = codes "execution.cache." ++ table

-- A cache of an open pool.
pub record MySqlCache : Type 0 where
  pub table : Name
  pub max_entry_bytes : ℕ

abbrev table_or_default : Name → Name
table_or_default [] = codes "cache_entries"
table_or_default (c ∷ cs) = c ∷ cs

abbrev with_maximum : Name → ℤ → Result MySqlCache
with_maximum table max =
    if ltb_ℤ max (pos 1)
    then err (message "mysql cache maximum entry bytes must be positive")
    else if ltb_ℤ (pos medium_text_max) max
    then err (
        message
          "mysql cache maximum entry bytes %d exceeds MEDIUMTEXT capacity %d; use a smaller MaxEntryBytes or a column type that can hold it")
    else ok (record { table = table; max_entry_bytes = pos_part max })

abbrev with_table : Name → ℤ → Result MySqlCache
with_table table max =
    if not (is_identifier table)
    then err (
        message
          "mysql cache table name %q is not a valid MySQL identifier (letters, digits, underscore, $; 1-64 chars)")
    else with_maximum table (if eqb_ℤ max (pos 0) then pos medium_text_max else max)

-- The checks of NewMySQLCache before it opens the pool.
unfoldable pub check_options : String → String → ℤ → Result MySqlCache
unfolding trim_space is_blank
check_options dsn table max =
    if is_blank dsn
    then err (message "mysql cache dsn is required")
    else with_table (table_or_default (trim_space table)) max
