-- ===== src/Files/Intact.antt =====
-- AtomicWrite never shows a part of a file: internal/fsutil/fsutil.go.
use flowkit.Base.{
  ◌≡◌, refl, ◌∙◌, ◌⊎◌, inl, inr, String, false, Option, none, some, All, arith, str_eq, str_eq_iff,
  if◌then◌else◌,
}
use flowkit.Base.Assoc.{
  Assoc, lookup, insert, erase, lookup-insert, lookup-insert_self, lookup-erase,
}
use flowkit.Errors.{Error, Result, ok, err}
use flowkit.Files.{
  Directory, Calls, opened, moved, rename_file, put_file, drop_file, fill, removed, atomic_write,
}

-- A path has its old content, or the new bytes, whole.
abbrev pub IsWhole : String → String → Assoc String → Assoc String → Type 0
IsWhole path bytes old files =
    (lookup path files ≡ lookup path old) ⊎ (lookup path files ≡ some bytes)

module _ (path bytes temp : String) (old : Assoc String) where
  -- The directory is whole, and was so after every call; only the path and the temporary differ.
  pub record IsSafe (d : Directory) : Type 0 where
    pub now : IsWhole path bytes old d.files
    pub before : All (IsWhole path bytes old) d.seen
    pub others :
        (q : String)
        → str_eq path q ≡ false
        → str_eq temp q ≡ false
        → lookup q d.files ≡ lookup q old

  module _ (apart : str_eq temp path ≡ false) where
    put-IsWhole :
        (b : String) (files : Assoc String)
        → IsWhole path bytes old files
        → IsWhole path bytes old (insert temp b files)
    put-IsWhole b files w = rw (lookup-insert, apart) w

    put-IsSafe : (b : String) (d : Directory) → IsSafe d → IsSafe (put_file temp b d).1
    put-IsSafe b d h = record {
      now = put-IsWhole b d.files h.now;
      before = (put-IsWhole b d.files h.now, h.before);
      others = λ q p t. rw (lookup-insert, t) (h.others q p t);
    }

    drop-IsSafe : (d : Directory) → IsSafe d → IsSafe (drop_file temp d).1
    drop-IsSafe d h = record {
      now = rw (lookup-erase, apart) h.now;
      before = (rw (lookup-erase, apart) h.now, h.before);
      others = λ q p t. rw (lookup-erase, t) (h.others q p t);
    }

    -- The rename of a temporary that holds the bytes.
    rename-lookup :
        (q : String) (files : Assoc String)
        → lookup q
            (moved temp path (insert temp bytes files) (lookup temp (insert temp bytes files)))
          ≡ (if str_eq path q then some bytes else if str_eq temp q then none else lookup q files)
    rename-lookup q files =
        rw (lookup-insert_self temp bytes files)
          (lookup-insert path q bytes (erase temp (insert temp bytes files)) ∙ inner)
      where
        inner :
            (if str_eq path q then some bytes else lookup q (erase temp (insert temp bytes files)))
            ≡ (if str_eq path q then some bytes else if str_eq temp q then none else lookup q files)
        inner =
            ground (
              arith,
              lookup-erase temp q (insert temp bytes files),
              lookup-insert temp q bytes files,
            )

    rename-path :
        (d : Directory)
        → lookup path (rename_file temp path (put_file temp bytes d).1).1.files ≡ some bytes
    rename-path d = rename-lookup path d.files ∙ rw ((str_eq_iff path path).1 refl) refl

    rename-IsSafe :
        (d : Directory) → IsSafe d → IsSafe (rename_file temp path (put_file temp bytes d).1).1
    rename-IsSafe d h = record {
      now = inr (rename-path d);
      before = (inr (rename-path d), (put-IsSafe bytes d h).before);
      others = λ q p t. rename-lookup q d.files ∙ rw (p, t) (h.others q p t);
    }

    module _ (c : Calls) where
      abbrev with_calls :
          Option Error
          → Option Error
          → Option Error
          → Option Error
          → Option Error
          → Option Error
          → Option Error
          → Option Error
          → Option Error
          → Calls
      with_calls chmod write sync ctx close rename op sy cl = record c {
        temp = temp;
        chmod = chmod;
        write = write;
        sync = sync;
        ctx_after = ctx;
        close = close;
        rename = rename;
        open_parent = op;
        sync_parent = sy;
        close_parent = cl;
      }

      fill-IsSafe :
          (m w s x l r y u v : Option Error) (d : Directory)
          → IsSafe d
          → IsSafe (fill (with_calls m w s x l r y u v) path bytes d).1
      unfolding fill
      fill-IsSafe (some e) w s x l r y u v d h = h
      fill-IsSafe none (some e) s x l r y u v d h = put-IsSafe c.partial d h
      fill-IsSafe none none (some e) x l r y u v d h = put-IsSafe bytes d h
      fill-IsSafe none none none (some e) l r y u v d h = put-IsSafe bytes d h
      fill-IsSafe none none none none (some e) r y u v d h = put-IsSafe bytes d h
      fill-IsSafe none none none none none (some e) y u v d h = put-IsSafe bytes d h
      fill-IsSafe none none none none none none (some e) u v d h = rename-IsSafe d h
      fill-IsSafe none none none none none none none (some e) v d h = rename-IsSafe d h
      fill-IsSafe none none none none none none none none (some e) d h = rename-IsSafe d h
      fill-IsSafe none none none none none none none none none d h = rename-IsSafe d h

      fill-published :
          (m w s x l r y u v : Option Error) (d : Directory)
          → (fill (with_calls m w s x l r y u v) path bytes d).0 ≡ ok tt
          → lookup path (fill (with_calls m w s x l r y u v) path bytes d).1.files ≡ some bytes
      unfolding fill
      fill-published (some e) w s x l r y u v d h = cc
      fill-published none (some e) s x l r y u v d h = cc
      fill-published none none (some e) x l r y u v d h = cc
      fill-published none none none (some e) l r y u v d h = cc
      fill-published none none none none (some e) r y u v d h = cc
      fill-published none none none none none (some e) y u v d h = cc
      fill-published none none none none none none (some e) u v d h = cc
      fill-published none none none none none none none (some e) v d h = cc
      fill-published none none none none none none none none (some e) d h = cc
      fill-published none none none none none none none none none d h = rename-path d

-- A success shows the new bytes.
abbrev pub Shows : String → String → Result (Unit {0}) × Directory → Type 0
Shows path bytes (ok r, d) = lookup path d.files ≡ some bytes
Shows path bytes (err e, d) = Unit {0}

module _ (c : Calls) (path bytes : String) (old : Assoc String)
    (apart : str_eq c.temp path ≡ false) where
  abbrev Safe : Directory → Type 0
  Safe d = IsSafe path bytes c.temp old d

  finally-IsSafe :
      (o : Option Error) (r : Result (Unit {0}) × Directory) → Safe r.1 → Safe (removed c o r).1
  finally-IsSafe (some e) (r, d) h = h
  finally-IsSafe none (r, d) h = drop-IsSafe path bytes c.temp old apart d h

  drop-Shows :
      (o : Option Error) (r : Result (Unit {0})) (d : Directory)
      → (r ≡ ok tt → lookup path d.files ≡ some bytes)
      → Shows path bytes (removed c o (r, d))
  drop-Shows (some e) (ok r) d h = h refl
  drop-Shows none (ok r) d h = rw (lookup-erase, apart) (h refl)
  drop-Shows (some e) (err x) d h = tt
  drop-Shows none (err x) d h = tt

  begun : Safe (opened old)
  begun = record { now = inl refl; before = (inl refl, tt); others = λ q p t. refl }

  created : Safe (put_file c.temp "" (opened old)).1
  created = put-IsSafe path bytes c.temp old apart "" (opened old) begun

  abbrev filled : Result (Unit {0}) × Directory
  filled = fill c path bytes (put_file c.temp "" (opened old)).1

  filled-IsSafe : Safe filled.1
  filled-IsSafe =
      fill-IsSafe path bytes c.temp old apart c c.chmod c.write c.sync c.ctx_after c.close c.rename
        c.open_parent c.sync_parent c.close_parent _ created

  filled_shows : filled.0 ≡ ok tt → lookup path filled.1.files ≡ some bytes
  filled_shows h =
      fill-published path bytes c.temp old apart c c.chmod c.write c.sync c.ctx_after c.close
        c.rename c.open_parent c.sync_parent c.close_parent _ h

  abbrev written : Option Error → Option Error → Option Error → Calls
  written ctx mkdir create = record c { ctx_before = ctx; mkdir = mkdir; create = create }

  write_lem :
      (x m k : Option Error)
      → Safe (atomic_write (written x m k) path bytes (opened old)).1
        × Shows path bytes (atomic_write (written x m k) path bytes (opened old))
  unfolding atomic_write
  write_lem (some e) m k = (begun, tt)
  write_lem none (some e) k = (begun, tt)
  write_lem none none (some e) = (begun, tt)
  write_lem none none none = (
    finally-IsSafe c.remove filled filled-IsSafe,
    drop-Shows c.remove filled.0 filled.1 filled_shows,
  )

  -- Whatever the calls of the operating system return, and wherever the program stops between two of
  -- them, the path has its old content or the new bytes, whole; no file but the path and the
  -- temporary is touched; and where AtomicWrite returns no error the path has the new bytes. (The
  -- temporary's name is not the path: it is new, as os.CreateTemp has it.)
  pub atomic_write-IsSafe :
      IsSafe path bytes c.temp old (atomic_write c path bytes (opened old)).1
      × Shows path bytes (atomic_write c path bytes (opened old))
  atomic_write-IsSafe = write_lem c.ctx_before c.mkdir c.create
