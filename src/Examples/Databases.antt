-- ===== src/Examples/Databases.antt =====
-- The MySQL cache's schema at concrete inputs: a server whose database is the view of one cache.
use flowkit.Base.{refl, ap, inl, inr, Bool, true, false, none, some, [], ◌∷◌, if◌then◌else◌}
use flowkit.Base.Int.{pos}
use flowkit.Base.Text.{codes, same_codes}
use flowkit.Errors.{message, ok, err}
use flowkit.Exec.{Exec}
use flowkit.Execution.MySql.{Name, Server, versions_table}
use flowkit.Execution.MySql.Schema.{migrate}
use flowkit.Execution.MySql.Schema.Contract.{
  View, view_of, created_table, fresh, is_there, columns_in, primary_in, Lawful,
}
use flowkit.Execution.MySql.Schema.Recovery.{migrate_all, Succeeds, migrate-Succeeds}

abbrev answer : {W A : Type 0} → (W → A) → Exec W A
answer f w = (ok (f w), w)

abbrev change : (View → View) → Bool → Exec View (Unit {0})
change f true v = (ok tt, f v)
change f false v = (err (message "connection lost"), f v)

-- A server that loses the connection after the CREATE of the cache's table, or does not.
abbrev server : Bool → Server View
server up = record {
  conn = answer (λ v. tt);
  database = answer (λ v. "flow");
  get_lock = λ lock. answer (λ v. some (pos 1));
  release_lock = λ lock v. v;
  count_tables = λ name. answer (λ v.
      if same_codes name versions_table then (if v.versions then 1 else 0) else is_there v.table);
  create_versions = change (λ v. record v { versions = true }) true;
  read_version = λ c. answer (λ v. v.version);
  insert_version = λ c. change (λ v. record v { version = some (pos 0) }) true;
  finish_version = λ n c. change (λ v. record v { version = some n }) true;
  create_table = λ name. change (λ v. record v { table = some created_table }) up;
  columns = λ name. answer (λ v. columns_in v.table);
  primary_columns = λ name. answer (λ v. primary_in v.table);
  select_value = λ name d v. ok none;
  upsert = λ name row v. (none, v);
}

abbrev entries_table : Name
entries_table = codes "t"

up-Lawful : Lawful ⊥ (server true) entries_table (λ v. v)
unfolding same_codes
up-Lawful = record {
  conn = λ v w h. h;
  database = λ v w h. h;
  get_lock = λ lock v w h. (inl refl, h);
  release_lock = λ lock w. refl;
  count_versions = λ b version rows w h. (ap (λ (v : View). if v.versions then 1 else 0) h, h);
  count_table = λ v w h. (ap (λ (v : View). is_there v.table) h, h);
  create_versions = λ rows w h. ap (λ (v : View). record v { versions = true }) h;
  read_version = λ version rows w h. (ap (λ (v : View). v.version) h, h);
  insert_version = λ rows w h. ap (λ (v : View). record v { version = some (pos 0) }) h;
  finish_version = λ rows w h. ap (λ (v : View). record v { version = some (pos 1) }) h;
  create_table = λ b version w h. ap (λ (v : View). record v { table = some created_table }) h;
  columns = λ v w h. (ap (λ (v : View). columns_in v.table) h, h);
  primary_columns = λ v w h. (ap (λ (v : View). primary_in v.table) h, h);
}

down-Lawful : Lawful Unit (server false) entries_table (λ v. v)
unfolding same_codes
down-Lawful = record {
  conn = λ v w h. h;
  database = λ v w h. h;
  get_lock = λ lock v w h. (inl refl, h);
  release_lock = λ lock w. refl;
  count_versions = λ b version rows w h. (ap (λ (v : View). if v.versions then 1 else 0) h, h);
  count_table = λ v w h. (ap (λ (v : View). is_there v.table) h, h);
  create_versions = λ rows w h. ap (λ (v : View). record v { versions = true }) h;
  read_version = λ version rows w h. (ap (λ (v : View). v.version) h, h);
  insert_version = λ rows w h. ap (λ (v : View). record v { version = some (pos 0) }) h;
  finish_version = λ rows w h. ap (λ (v : View). record v { version = some (pos 1) }) h;
  create_table =
      λ b version w h. (tt, inr (ap (λ (v : View). record v { table = some created_table }) h));
  columns = λ v w h. (ap (λ (v : View). columns_in v.table) h, h);
  primary_columns = λ v w h. (ap (λ (v : View). primary_in v.table) h, h);
}

-- The first two constructors lose the connection; the third finishes what they have begun.
migrate-Succeeds_example :
    Succeeds
      (λ v. v)
      (migrate
        (server true)
        entries_table
        (λ s. s)
        (migrate_all entries_table
          (λ s. s)
          (server false ∷ server false ∷ [])
          (view_of false none none)))
migrate-Succeeds_example =
    migrate-Succeeds entries_table (λ s. s) (λ v. v) (server false ∷ server false ∷ [])
      (server true) (view_of false none none) (down-Lawful, (down-Lawful, tt)) up-Lawful fresh
