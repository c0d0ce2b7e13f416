-- ===== src/Examples/Written.antt =====
-- AtomicWrite at concrete inputs, with a write that fails on the way.
use flowkit.Base.{refl, String, none, some, [], ◌∷◌}
use flowkit.Base.Assoc.{Assoc}
use flowkit.Errors.{message}
use flowkit.Files.{Calls, opened, atomic_write}
use flowkit.Files.Intact.{IsSafe, Shows, atomic_write-IsSafe}

abbrev calls : Calls
calls = record {
  ctx_before = none;
  mkdir = none;
  create = none;
  temp = ".cache-1";
  chmod = none;
  write = some (message "no space left on device");
  partial = "vec";
  sync = none;
  ctx_after = none;
  close = none;
  rename = none;
  open_parent = none;
  sync_parent = none;
  close_parent = none;
  remove = none;
}

abbrev old : Assoc String
old = ("entry", "before") ∷ []

atomic_write-IsSafe_example :
    IsSafe "entry" "vector" ".cache-1" old (atomic_write calls "entry" "vector" (opened old)).1
    × Shows "entry" "vector" (atomic_write calls "entry" "vector" (opened old))
atomic_write-IsSafe_example = atomic_write-IsSafe calls "entry" "vector" old refl
