-- ===== src/Flow/Observe.antt =====
-- flow/observe.go: what a run tells its ledger and its reporter. The time stamps and the ticker of the
-- periodic snapshots are left out: the model is of a run whose ReportInterval is not positive.
use flowkit.Base.{ℕ, ◌+◌, Bool, Option, none, some}
use flowkit.Base.Assoc.{Assoc}
use flowkit.Errors.{Error, wrapped, Result, ok}
use flowkit.Exec.{Exec, ◌>>=◌, pure, fail_with}
use flowkit.Flow.Admit.{Pool}
use flowkit.Flow.Report.{StepReport, Event}

-- The report of a run, by the name of a step.
abbrev pub Report : Type 0 → Type 0
Report F = Assoc (StepReport F)

pub record Snapshot (F : Type 0) : Type 0 where
  pub sequence : ℕ
  pub total : ℕ
  pub terminal : Bool
  pub report : Report F

-- The state that a run and its nested runs share: the environment and the world, the sequence number
-- of observationState, and the report so far.
pub record Scene (F W : Type 0) : Type 0 where
  pub pool : Pool F W
  pub sequence : ℕ
  pub report : Report F

-- Options.Ledger and Options.Reporter; nil is none.
pub record Observers (F W : Type 0) : Type 0 where
  pub ledger : Option (Event → W → Option Error × W)
  pub reporter : Option (Snapshot F → W → Option Error × W)

abbrev pub Act : Type 0 → Type 0 → Type 0 → Type 0
Act F W A = Exec (Scene F W) A

module _ {F W : Type 0} where
  -- A call of a collaborator, which acts on the world.
  abbrev pub told : Scene F W → Option Error × W → Result (Option Error) × Scene F W
  told s (e, w) = (ok e, record s { pool = record (s.pool) { world = w } })

  abbrev pub tell : (W → Option Error × W) → Act F W (Option Error)
  tell f s = told s (f s.pool.world)

  unfoldable pub emit_ledger : Observers F W → Event → Act F W (Unit {0})
  emit_ledger o event = elim o.ledger [
    | none ↦ pure tt
    | some ledger ↦ tell (ledger event) >>= fail_with (wrapped "ledger event")
  ]

  -- Options.snapshot: every snapshot takes the next number.
  unfoldable pub next_snapshot : Report F → ℕ → Bool → Scene F W → Snapshot F × Scene F W
  next_snapshot report total terminal s = (
    record { sequence = s.sequence + 1; total = total; terminal = terminal; report = report },
    record s { sequence = s.sequence + 1 },
  )

  abbrev pub send :
      (Snapshot F → W → Option Error × W)
      → Snapshot F × Scene F W
      → Result (Option Error) × Scene F W
  send reporter (snap, s) = tell (reporter snap) s

  unfoldable pub publish : Observers F W → Report F → ℕ → Bool → Act F W (Unit {0})
  unfolding next_snapshot
  publish o report total terminal = elim o.reporter [
    | none ↦ pure tt
    | some reporter ↦
        (λ s. send reporter (next_snapshot report total terminal s))
        >>= fail_with (wrapped "progress reporter")
  ]
