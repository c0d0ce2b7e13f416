-- ===== src/Execution/MySql/Schema/Contract.antt =====
-- What the migration in execution/mysql_cache.go relies on of the server.
use flowkit.Base.{
  ℕ, ◌≡◌, ◌⊎◌, String, Bool, true, false, Option, none, some, List, [], ◌∷◌, if◌then◌else◌,
}
use flowkit.Base.Int.{ℤ, pos}
use flowkit.Errors.{Result, ok, err}
use flowkit.Execution.MySql.{Name, Column, Server, quoted, versions_table, component_of}

-- What a database has of one cache: the table of versions, the version recorded in it, and the
-- columns and the number of key columns of the cache's table.
pub record View : Type 0 where
  pub versions : Bool
  pub version : Option ℤ
  pub table : Option (List Column × ℕ)

abbrev pub column : String → String → String → Column
column name data_type max_length = record {
  name = name;
  data_type = data_type;
  nullable = "NO";
  max_length = max_length;
}

-- The columns of the CREATE TABLE statement, as information_schema has them.
abbrev pub created_table : List Column × ℕ
created_table = (
  column "key_digest" "varbinary" "64"
      ∷ column "step" "mediumtext" "16777215"
      ∷ column "version" "mediumtext" "16777215"
      ∷ column "input_digest" "varbinary" "64"
      ∷ column "value_digest" "varbinary" "64"
      ∷ column "value_json" "mediumtext" "16777215"
      ∷ column "created_at" "bigint" "NULL"
      ∷ [],
  1,
)

abbrev pub view_of : Bool → Option ℤ → Option (List Column × ℕ) → View
view_of versions version table = record { versions = versions; version = version; table = table }

-- The states that migrations and their interruptions leave, from an empty database on.
pub data Recoverable : View → Type 0 where
  fresh : Recoverable (view_of false none none)
  versioned : Recoverable (view_of true none none)
  marked : Recoverable (view_of true (some (pos 0)) none)
  created : Recoverable (view_of true (some (pos 0)) (some created_table))
  final : Recoverable (view_of true (some (pos 1)) (some created_table))

abbrev pub is_there : {A : Type 0} → Option A → ℕ
is_there none = 0
is_there (some a) = 1

abbrev pub columns_in : Option (List Column × ℕ) → List Column
columns_in none = []
columns_in (some (columns, n)) = columns

abbrev pub primary_in : Option (List Column × ℕ) → ℕ
primary_in none = 0
primary_in (some (columns, n)) = n

-- A statement that reads `a`, or fails where `Fails` holds. It leaves the database as it is.
abbrev pub ReadsTo : {A W : Type 0} → Type 0 → (W → View) → A → View → Result A × W → Type 0
ReadsTo Fails view a v (ok b, w) = (b ≡ a) × (view w ≡ v)
ReadsTo Fails view a v (err e, w) = Fails × (view w ≡ v)

-- A statement whose answer does not matter.
abbrev pub Passes : {A W : Type 0} → Type 0 → (W → View) → View → Result A × W → Type 0
Passes Fails view v (ok b, w) = view w ≡ v
Passes Fails view v (err e, w) = Fails × (view w ≡ v)

-- The lock is granted, or the wait for it has timed out.
abbrev pub Grants : {W : Type 0} → Type 0 → (W → View) → View → Result (Option ℤ) × W → Type 0
Grants Fails view v (ok b, w) = ((b ≡ some (pos 1)) ⊎ Fails) × (view w ≡ v)
Grants Fails view v (err e, w) = Fails × (view w ≡ v)

-- A statement that changes the database to `after`; where it fails, it may have done so or not.
abbrev pub WritesTo :
    {W : Type 0} → Type 0 → (W → View) → View → View → Result (Unit {0}) × W → Type 0
WritesTo Fails view v after (ok r, w) = view w ≡ after
WritesTo Fails view v after (err e, w) = Fails × ((view w ≡ v) ⊎ (view w ≡ after))

-- What the code relies on of the server, in a database's view of one table and its component. A
-- server that never fails is one whose `Fails` is empty.
pub record Lawful {W : Type 0} (Fails : Type 0) (s : Server W) (table : Name) (view : W → View)
    : Type 0 where
  pub conn : (v : View) (w : W) → view w ≡ v → Passes Fails view v (s.conn w)
  pub database : (v : View) (w : W) → view w ≡ v → Passes Fails view v (s.database w)
  pub get_lock :
      (lock : Name) (v : View) (w : W) → view w ≡ v → Grants Fails view v (s.get_lock lock w)
  pub release_lock : (lock : Name) (w : W) → view (s.release_lock lock w) ≡ view w
  pub count_versions :
      (b : Bool) (version : Option ℤ) (rows : Option (List Column × ℕ)) (w : W)
      → view w ≡ view_of b version rows
      → ReadsTo Fails view
          (if b then 1 else 0)
          (view_of b version rows)
          (s.count_tables versions_table w)
  pub count_table :
      (v : View) (w : W)
      → view w ≡ v
      → ReadsTo Fails view (is_there v.table) v (s.count_tables table w)
  pub create_versions :
      (rows : Option (List Column × ℕ)) (w : W)
      → view w ≡ view_of false none rows
      → WritesTo Fails view (view_of false none rows) (view_of true none rows) (s.create_versions w)
  pub read_version :
      (version : Option ℤ) (rows : Option (List Column × ℕ)) (w : W)
      → view w ≡ view_of true version rows
      → ReadsTo Fails view version
          (view_of true version rows)
          (s.read_version (component_of table) w)
  pub insert_version :
      (rows : Option (List Column × ℕ)) (w : W)
      → view w ≡ view_of true none rows
      → WritesTo Fails view
          (view_of true none rows)
          (view_of true (some (pos 0)) rows)
          (s.insert_version (component_of table) w)
  pub finish_version :
      (rows : Option (List Column × ℕ)) (w : W)
      → view w ≡ view_of true (some (pos 0)) rows
      → WritesTo Fails view
          (view_of true (some (pos 0)) rows)
          (view_of true (some (pos 1)) rows)
          (s.finish_version (pos 1) (component_of table) w)
  pub create_table :
      (b : Bool) (version : Option ℤ) (w : W)
      → view w ≡ view_of b version none
      → WritesTo Fails view
          (view_of b version none)
          (view_of b version (some created_table))
          (s.create_table (quoted table) w)
  pub columns :
      (v : View) (w : W)
      → view w ≡ v
      → ReadsTo Fails view (columns_in v.table) v (s.columns table w)
  pub primary_columns :
      (v : View) (w : W)
      → view w ≡ v
      → ReadsTo Fails view (primary_in v.table) v (s.primary_columns table w)

-- A migration that succeeds leaves version 1 and its table; one that fails leaves what a later
-- migration can go on from.
abbrev pub Ends : {W : Type 0} → Type 0 → (W → View) → Result (Unit {0}) × W → Type 0
Ends Fails view (ok r, w) = view w ≡ view_of true (some (pos 1)) (some created_table)
Ends Fails view (err e, w) = Fails × Recoverable (view w)
