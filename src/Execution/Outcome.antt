-- ===== src/Execution/Outcome.antt =====
-- Cache outcomes of execution/cached_map.go, which the package flow reports too.
use flowkit.Base.{String}

-- execution.CacheState, with "" for an item that no cache holds
pub data CacheState : Type 0 where
  uncached hit stored_state pending : CacheState

pub record CacheOutcome : Type 0 where
  pub key_digest : String
  pub state : CacheState

abbrev pub no_outcome : CacheOutcome
no_outcome = record { key_digest = ""; state = uncached }
