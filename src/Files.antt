-- ===== src/Files.antt =====
-- internal/fsutil/fsutil.go: the atomic publication of a file. A directory is the content of its files
-- by path, with every state that it has been in, since a crash may stop the program after any call.
-- What each call of the operating system returns is a parameter; permissions are left out.
pub mod Intact
use flowkit.Base.{String, Option, none, some, List, [], ◌∷◌}
use flowkit.Base.Assoc.{Assoc, lookup, insert, erase}
use flowkit.Errors.{Error, wrapped, Result, ok, err}
use flowkit.Exec.{Exec, ◌>>◌, pure, raise, fail_with}

pub record Directory : Type 0 where
  pub files : Assoc String
  -- newest first
  pub seen : List (Assoc String)

-- What the calls of one AtomicWrite return. `temp` is the name of the temporary file, and `partial`
-- what a write that fails has left in it.
pub record Calls : Type 0 where
  pub ctx_before : Option Error
  pub mkdir : Option Error
  pub create : Option Error
  pub temp : String
  pub chmod : Option Error
  pub write : Option Error
  pub partial : String
  pub sync : Option Error
  pub ctx_after : Option Error
  pub close : Option Error
  pub rename : Option Error
  pub open_parent : Option Error
  pub sync_parent : Option Error
  pub close_parent : Option Error
  pub remove : Option Error

-- SyncDirectory of the parent: an open, a sync and a close.
abbrev synced_open : Option Error → Option Error → Option Error
synced_open (some e) closed = some e
synced_open none closed = closed

abbrev synced : Option Error → Option Error → Option Error → Option Error
synced (some e) sync closed = some e
synced none sync closed = synced_open sync closed

abbrev pub sync_directory : Calls → Option Error
sync_directory c = synced c.open_parent c.sync_parent c.close_parent

abbrev pub opened : Assoc String → Directory
opened files = record { files = files; seen = files ∷ [] }

abbrev pub become : Assoc String → Exec Directory (Unit {0})
become files d = (ok tt, record { files = files; seen = files ∷ d.seen })

-- os.Rename
abbrev pub moved : String → String → Assoc String → Option String → Assoc String
moved from to files none = files
moved from to files (some bytes) = insert to bytes (erase from files)

abbrev pub rename_file : String → String → Exec Directory (Unit {0})
rename_file from to d = become (moved from to d.files (lookup from d.files)) d

abbrev pub put_file : String → String → Exec Directory (Unit {0})
put_file path bytes d = become (insert path bytes d.files) d

abbrev pub drop_file : String → Exec Directory (Unit {0})
drop_file path d = become (erase path d.files) d

-- The write of the temporary file.
abbrev pub write_temp : Calls → String → Option Error → Exec Directory (Unit {0})
write_temp c bytes none = put_file c.temp bytes
write_temp c bytes (some e) = put_file c.temp c.partial >> raise (wrapped "write temporary file" e)

abbrev pub publish_temp : Calls → String → Option Error → Exec Directory (Unit {0})
publish_temp c path none = rename_file c.temp path
publish_temp c path (some e) = raise (wrapped "publish file" e)

-- The calls between the creation and the deferred removal.
unfoldable pub fill : Calls → String → String → Exec Directory (Unit {0})
fill c path bytes = do
  fail_with (wrapped "set file permissions") c.chmod
  write_temp c bytes c.write
  fail_with (wrapped "sync temporary file") c.sync
  fail_with (λ e. e) c.ctx_after
  fail_with (wrapped "close temporary file") c.close
  publish_temp c path c.rename
  fail_with (wrapped "sync parent directory") (sync_directory c)

abbrev pub removed :
    Calls → Option Error → Result (Unit {0}) × Directory → Result (Unit {0}) × Directory
removed c (some e) (r, d) = (r, d)
removed c none (r, d) = (r, (drop_file c.temp d).1)

-- The deferred removal, whose error is dropped.
abbrev pub finally : Calls → Exec Directory (Unit {0}) → Exec Directory (Unit {0})
finally c m d = removed c c.remove (m d)

unfoldable pub atomic_write : Calls → String → String → Exec Directory (Unit {0})
unfolding fill
atomic_write c path bytes = do
  fail_with (λ e. e) c.ctx_before
  fail_with (wrapped "create parent directory") c.mkdir
  fail_with (wrapped "create temporary file") c.create
  put_file c.temp ""
  finally c (fill c path bytes)
