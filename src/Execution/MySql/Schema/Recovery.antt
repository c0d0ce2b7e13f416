-- ===== src/Execution/MySql/Schema/Recovery.antt =====
-- The migration after an interruption: execution/mysql_cache.go.
use flowkit.Base.{
  ℕ, ◌≡◌, refl, sym, subst, inl, inr, String, Bool, true, false, Option, none, some, List, [], ◌∷◌,
  ltb, if◌then◌else◌, All,
}
use flowkit.Base.Int.{ℤ, pos, eqb_ℤ}
use flowkit.Base.Assoc.{lookup, insert}
use flowkit.Errors.{message, Result, ok, err}
use flowkit.Exec.{Exec, raise, then_do, ◌>>=◌, ◌>>◌}
use flowkit.Execution.MySql.{Name, Column, Server, quoted, versions_table, component_of}
use flowkit.Execution.MySql.Schema.Contract.{
  View, view_of, created_table, Recoverable, fresh, versioned, marked, created, final, is_there,
  columns_in, ReadsTo, Passes, Grants, WritesTo, Lawful, Ends,
}
use flowkit.Execution.MySql.Schema.{
  validate_schema, seen_columns, all_expected, check_columns, check_primary, initialize, upgrade,
  at_version, read, prepare, inspect_table, inspect, release, under_lock, lock_of, in_database,
  migrate,
}

module _ {W : Type 0} (Fails : Type 0) (view : W → View) where
  read_then :
      {A : Type 0} (k : A → Exec W (Unit {0})) (v : View) (a : A) (r : Result A × W)
      → ReadsTo Fails view a v r
      → Recoverable v
      → ((w : W) → view w ≡ v → Ends Fails view (k a w))
      → Ends Fails view (then_do k r)
  read_then k v a (ok b, w) (e, h) g next = subst (λ x. Ends Fails view (k x w)) (sym e) (next w h)
  read_then k v a (err e, w) (f, h) g next = (f, subst Recoverable (sym h) g)

  pass_then :
      {A : Type 0} (k : A → Exec W (Unit {0})) (v : View) (r : Result A × W)
      → Passes Fails view v r
      → Recoverable v
      → ((a : A) (w : W) → view w ≡ v → Ends Fails view (k a w))
      → Ends Fails view (then_do k r)
  pass_then k v (ok a, w) h g next = next a w h
  pass_then k v (err e, w) (f, h) g next = (f, subst Recoverable (sym h) g)

  write_then :
      (k : Exec W (Unit {0})) (v after : View) (r : Result (Unit {0}) × W)
      → WritesTo Fails view v after r
      → Recoverable v
      → Recoverable after
      → ((w : W) → view w ≡ after → Ends Fails view (k w))
      → Ends Fails view (then_do (λ _. k) r)
  write_then k v after (ok a, w) h g g' next = next w h
  write_then k v after (err e, w) (f, inl h) g g' next = (f, subst Recoverable (sym h) g)
  write_then k v after (err e, w) (f, inr h) g g' next = (f, subst Recoverable (sym h) g')

  finish_end :
      (r : Result (Unit {0}) × W)
      → WritesTo Fails view
          (view_of true (some (pos 0)) (some created_table))
          (view_of true (some (pos 1)) (some created_table))
          r
      → Ends Fails view r
  finish_end (ok r, w) h = h
  finish_end (err e, w) (f, inl h) = (f, subst Recoverable (sym h) created)
  finish_end (err e, w) (f, inr h) = (f, subst Recoverable (sym h) final)

  checked_end :
      (r : Result (Unit {0}) × W)
      → ReadsTo Fails view tt (view_of true (some (pos 1)) (some created_table)) r
      → Ends Fails view r
  checked_end (ok r, w) (u, h) = h
  checked_end (err e, w) (f, h) = (f, subst Recoverable (sym h) final)

  read_read :
      {A B : Type 0} (k : A → Exec W B) (v : View) (a : A) (b : B) (r : Result A × W)
      → ReadsTo Fails view a v r
      → ((w : W) → view w ≡ v → ReadsTo Fails view b v (k a w))
      → ReadsTo Fails view b v (then_do k r)
  read_read k v a b (ok x, w) (e, h) next =
      subst (λ x. ReadsTo Fails view b v (k x w)) (sym e) (next w h)
  read_read k v a b (err e, w) h next = h

  release-Ends :
      (s : Server W) (table lock : Name) (r : Result (Unit {0}) × W)
      → ((w : W) → view (s.release_lock lock w) ≡ view w)
      → Ends Fails view r
      → Ends Fails view (release s table lock r)
  release-Ends s table lock (ok r, w) same h = rw (same) h
  release-Ends s table lock (err e, w) same (f, h) = (f, subst Recoverable (sym (same w)) h)

module _ {W : Type 0} (Fails : Type 0) (s : Server W) (table : Name) (view : W → View)
    (law : Lawful Fails s table view) where
  validate_reads :
      (version : Option ℤ) (w : W)
      → view w ≡ view_of true version (some created_table)
      → ReadsTo Fails view tt
          (view_of true version (some created_table))
          (validate_schema s table w)
  unfolding validate_schema seen_columns all_expected lookup insert
  validate_reads version w h =
      read_read Fails view (check_columns s table) _ (columns_in (some created_table)) tt
        (s.columns table w) (law.columns _ w h)
        (λ w h.
          read_read Fails view (check_primary s table) _ 1 tt (s.primary_columns table w)
            (law.primary_columns _ w h) (λ w h. (refl, h)))

  finished :
      (w : W)
      → view w ≡ view_of true (some (pos 0)) (some created_table)
      → Ends Fails view
          ((validate_schema s table >> s.finish_version (pos 1) (component_of table)) w)
  finished w h =
      read_then Fails view (λ _. s.finish_version (pos 1) (component_of table)) _ tt
        (validate_schema s table w) (validate_reads (some (pos 0)) w h) created
        (λ w h. finish_end Fails view _ (law.finish_version (some created_table) w h))

  made :
      (w : W)
      → view w ≡ view_of true (some (pos 0)) none
      → Ends Fails view (initialize s table false w)
  made w h =
      write_then Fails view
        (validate_schema s table >> s.finish_version (pos 1) (component_of table)) _ _
        (s.create_table (quoted table) w) (law.create_table true (some (pos 0)) w h) marked created
        finished

  marking :
      (w : W) → view w ≡ view_of true none none → Ends Fails view (at_version s table false none w)
  marking w h =
      write_then Fails view (upgrade s table false (pos 0)) _ _
        (s.insert_version (component_of table) w) (law.insert_version none w h) versioned marked
        made

  at_view :
      (version : Option ℤ) (rows : Option (List Column × ℕ)) (w : W)
      → Recoverable (view_of true version rows)
      → ((w : W)
          → view w ≡ view_of true version rows
          → Ends Fails view (at_version s table (ltb 0 (is_there rows)) version w))
      → view w ≡ view_of true version rows
      → Ends Fails view (read s table (ltb 0 (is_there rows)) w)
  at_view version rows w g next h =
      read_then Fails view (at_version s table (ltb 0 (is_there rows))) _ version
        (s.read_version (component_of table) w) (law.read_version version rows w h) g next

  prepared :
      (v : View) (w : W)
      → Recoverable v
      → view w ≡ v
      → Ends Fails view (prepare s table v.versions (ltb 0 (is_there v.table)) w)
  prepared _ w fresh h =
      write_then Fails view (read s table false) _ _ (s.create_versions w)
        (law.create_versions none w h) fresh versioned
        (λ w h. at_view none none w versioned marking h)
  prepared _ w versioned h = at_view none none w versioned marking h
  prepared _ w marked h = at_view (some (pos 0)) none w marked made h
  prepared _ w created h = at_view (some (pos 0)) (some created_table) w created finished h
  prepared _ w final h =
      at_view (some (pos 1)) (some created_table) w final
        (λ w h. checked_end Fails view _ (validate_reads (some (pos 1)) w h)) h

  inspected : (v : View) (w : W) → Recoverable v → view w ≡ v → Ends Fails view (inspect s table w)
  unfolding inspect
  inspected v w g h =
      read_then Fails view (inspect_table s table) v (if v.versions then 1 else 0)
        (s.count_tables versions_table w) (law.count_versions v.versions v.version v.table w h) g
        (λ w h.
          read_then Fails view
            (λ tables. prepare s table (ltb 0 (if v.versions then 1 else 0)) (ltb 0 tables)) v
            (is_there v.table) (s.count_tables table w) (law.count_table v w h) g
            (λ w h. counted v.versions w v g h refl))
    where
      counted :
          (b : Bool) (w : W) (v : View)
          → Recoverable v
          → view w ≡ v
          → v.versions ≡ b
          → Ends Fails view
              (prepare s table (ltb 0 (if b then 1 else 0)) (ltb 0 (is_there v.table)) w)
      counted true w v g h e =
          subst (λ b. Ends Fails view (prepare s table b (ltb 0 (is_there v.table)) w)) e
            (prepared v w g h)
      counted false w v g h e =
          subst (λ b. Ends Fails view (prepare s table b (ltb 0 (is_there v.table)) w)) e
            (prepared v w g h)

  locked :
      (lock : Name) (v : View) (r : Result (Option ℤ) × W)
      → Grants Fails view v r
      → Recoverable v
      → Ends Fails view (then_do (under_lock s table lock) r)
  locked lock v (ok n, w) (inl e, h) g =
      subst (λ n. Ends Fails view (under_lock s table lock n w)) (sym e)
        (release-Ends Fails view s table lock (inspect s table w) (law.release_lock lock)
          (inspected v w g h))
  locked lock v (ok n, w) (inr f, h) g = refused n
    where
      timed_out :
          (b : Bool)
          → Ends Fails view (
              (if b
                  then (λ w. release s table lock (inspect s table w))
                  else raise (message "acquire schema lock %q: timed out"))
                w)
      timed_out true =
          release-Ends Fails view s table lock (inspect s table w) (law.release_lock lock)
            (inspected v w g h)
      timed_out false = (f, subst Recoverable (sym h) g)

      refused : (n : Option ℤ) → Ends Fails view (under_lock s table lock n w)
      refused none = (f, subst Recoverable (sym h) g)
      refused (some n) = timed_out (eqb_ℤ n (pos 1))
  locked lock v (err e, w) (f, h) g = (f, subst Recoverable (sym h) g)

  pub migrate-Ends :
      (hash : String → String) (v : View) (w : W)
      → Recoverable v
      → view w ≡ v
      → Ends Fails view (migrate s table hash w)
  unfolding migrate
  migrate-Ends hash v w g h =
      pass_then Fails view (λ _. s.database >>= in_database s table hash) v (s.conn w)
        (law.conn v w h) g
        (λ a w h.
          pass_then Fails view (in_database s table hash) v (s.database w) (law.database v w h) g
            (λ name w h.
              locked (lock_of s table hash name) v (s.get_lock (lock_of s table hash name) w)
                (law.get_lock (lock_of s table hash name) v w h) g))

-- Constructor calls one after another, each with the server as it behaved during that call.
abbrev pub migrate_all : {W : Type 0} → Name → (String → String) → List (Server W) → W → W
migrate_all table hash [] w = w
migrate_all table hash (s ∷ ss) w = migrate_all table hash ss (migrate s table hash w).1

ended :
    {W : Type 0} (Fails : Type 0) (view : W → View) (r : Result (Unit {0}) × W)
    → Ends Fails view r
    → Recoverable (view r.1)
ended Fails view (ok r, w) h = subst Recoverable (sym h) final
ended Fails view (err e, w) (f, h) = h

all_ended :
    {W : Type 0} (table : Name) (hash : String → String) (view : W → View) (ss : List (Server W))
    (w : W)
    → All (λ s. Lawful Unit s table view) ss
    → Recoverable (view w)
    → Recoverable (view (migrate_all table hash ss w))
all_ended table hash view [] w laws g = g
all_ended table hash view (s ∷ ss) w (law, laws) g =
    all_ended table hash view ss (migrate s table hash w).1 laws (
      ended Unit view (migrate s table hash w)
        (migrate-Ends Unit s table view law hash (view w) w g refl))

-- What a server that does not fail makes of a migration.
abbrev pub Succeeds : {W : Type 0} → (W → View) → Result (Unit {0}) × W → Type 0
Succeeds view (r, w) = (r ≡ ok tt) × (view w ≡ view_of true (some (pos 1)) (some created_table))

succeeds :
    {W : Type 0} (view : W → View) (r : Result (Unit {0}) × W) → Ends ⊥ view r → Succeeds view r
succeeds view (ok tt, w) h = (refl, h)
succeeds view (err e, w) (f, h) = absurd f

-- Whatever statements failed in any number of earlier migrations, before they took effect or after,
-- and a migration that starts from what an empty database has become: once the server does not
-- fail, the migration succeeds, with version 1 recorded and the table as it was created.
pub migrate-Succeeds :
    {W : Type 0} (table : Name) (hash : String → String) (view : W → View) (ss : List (Server W))
    (s : Server W) (w : W)
    → All (λ s. Lawful Unit s table view) ss
    → Lawful ⊥ s table view
    → Recoverable (view w)
    → Succeeds view (migrate s table hash (migrate_all table hash ss w))
migrate-Succeeds table hash view ss s w laws law g =
    succeeds view (migrate s table hash (migrate_all table hash ss w)) (
      migrate-Ends ⊥ s table view law hash (view (migrate_all table hash ss w))
        (migrate_all table hash ss w) (all_ended table hash view ss w laws g) refl)
