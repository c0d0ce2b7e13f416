-- ===== src/Flow/Pipeline.antt =====
-- runStages of flow/run.go: the stages of a pipeline, their channels and the collector. Each stage is
-- a goroutine of its own; a schedule picks which one moves next, and which item of its channel a
-- worker takes. A worker handles its item in one move. What is sent waits in the channel of the next
-- stage, whose size is not bounded here; the collector writes a result as soon as it is sent. All
-- inputs wait before the first stage, so its channel counts as closed. A line is one whose context does
-- not end: the tests of the context in the feeder, at a barrier and in a send are left out, with the
-- reporter's ticker and the progress lines of the log.
pub mod Ordered
use flowkit.Base.{
  ℕ, zero, suc, ◌+◌, ◌*◌, String, Bool, true, false, not, ◌&&◌, ◌||◌, Option, none, some, List, [],
  ◌∷◌, ◌++◌, if◌then◌else◌, length, set, replicate,
}
use flowkit.Errors.{Error, message, wrapped, Result, ok, err}
use flowkit.Exec.{Exec, ◌>>=◌, ◌>>◌, pure, raise, wrapping}
use flowkit.Flow.Report.{Event, EventType, step_started, step_completed}
use flowkit.Flow.Runner.{Item}

-- How a stage runs: item by item, after all of them if it is a barrier (typedRunner), or over the
-- whole drained stream (overrideStageRunner).
pub data Engine (S V : Type 0) : Type 0 where
  streaming : Bool → (Item V → Exec S (Item V)) → Engine S V
  draining : (List (Item V) → Exec S (List (Item V))) → Engine S V

-- The goroutine of a stage: before its step_started event, in `run`, after `run` of a drained
-- stream, and after its step_completed event, with its output closed.
pub data Phase : Type 0 where
  idle running drained closed : Phase

abbrev pub is_closed : Phase → Bool
is_closed closed = true
is_closed _ = false

-- A stage with the items that wait in its input channel.
pub record Post (S V : Type 0) : Type 0 where
  pub name : String
  pub engine : Engine S V
  pub phase : Phase
  pub queue : List (Item V)

pub record Line (S V : Type 0) : Type 0 where
  pub posts : List (Post S V)
  -- none is the zero item
  pub results : List (Option (Item V))

abbrev has_items : {A : Type 0} → List A → Bool
has_items [] = false
has_items (x ∷ xs) = true

-- The item that a worker takes; a number past the end takes the last.
unfoldable pub pick_at : {A : Type 0} → ℕ → A → List A → A × List A
pick_at zero x xs = (x, xs)
pick_at (suc j) x [] = (x, [])
pick_at (suc j) x (y ∷ ys) = let (p, rest) = pick_at j y ys in (p, x ∷ rest)

-- The collector.
unfoldable pub collect :
    {V : Type 0} → List (Item V) → List (Option (Item V)) → List (Option (Item V))
collect [] results = results
collect (i ∷ items) results = collect items (set results i.index (some i))

abbrev pub phase_moves : Phase → ℕ
phase_moves idle = 3
phase_moves running = 2
phase_moves drained = 1
phase_moves closed = 0

abbrev pub stage_event : EventType → String → ℕ → Event
stage_event type name total = record {
  step = name;
  index = none;
  type = type;
  class = "";
  attempt = 0;
  total = total;
  error = none;
}

module _ {S V : Type 0} where
  abbrev pub can_run : Bool → Engine S V → List (Item V) → Bool
  can_run input_closed (streaming barrier handle) queue =
      input_closed || (not barrier && has_items queue)
  can_run input_closed (draining run) queue = input_closed

  -- The goroutine is not waiting for its channel.
  abbrev pub can_go : Bool → Phase → Engine S V → List (Item V) → Bool
  can_go input_closed idle engine queue = true
  can_go input_closed running engine queue = can_run input_closed engine queue
  can_go input_closed drained engine queue = true
  can_go input_closed closed engine queue = false

  abbrev pub can_move : Bool → Post S V → Bool
  can_move input_closed p = can_go input_closed p.phase p.engine p.queue

  -- What a stage sends goes to the next stage, or to the collector.
  unfoldable pub deliver : List (Item V) → List (Post S V) → List (Option (Item V)) → Line S V
  unfolding collect
  deliver items [] results = record { posts = []; results = collect items results }
  deliver items (p ∷ ps) results = record {
    posts = record p { queue = p.queue ++ items } ∷ ps;
    results = results;
  }

  abbrev pub behind : Post S V → Line S V → Line S V
  behind p line = record line { posts = p ∷ line.posts }

  unfoldable pub can_advance : Bool → ℕ → List (Post S V) → Bool
  can_advance input_closed k [] = false
  can_advance input_closed zero (p ∷ ps) = can_move input_closed p
  can_advance input_closed (suc k) (p ∷ ps) = can_advance (is_closed p.phase) k ps

  -- The first stage that is not closed: it can always move.
  unfoldable pub front : List (Post S V) → ℕ
  front [] = 0
  front (p ∷ ps) = let rest = suc (front ps) in if is_closed p.phase then rest else 0

  -- The stage that the schedule picks, or another one if that one waits.
  unfoldable pub chosen : ℕ → List (Post S V) → ℕ
  unfolding can_advance front
  chosen k posts = if can_advance true k posts then k else front posts

  unfoldable pub all_closed : List (Post S V) → Bool
  all_closed [] = true
  all_closed (p ∷ ps) = is_closed p.phase && all_closed ps

  -- The moves that a line has left: two or three for each stage, and one for each item and stage.
  unfoldable pub moves_left : List (Post S V) → ℕ
  moves_left [] = 0
  moves_left (p ∷ ps) = phase_moves p.phase + length p.queue * suc (length ps) + moves_left ps

-- emitLedger, and the number of the run's items
module _ {S V : Type 0} (emit : Event → Exec S (Unit {0})) (total : ℕ) where
  -- One move of a running stage.
  unfoldable pub work_on :
      ℕ → Post S V → Engine S V → List (Item V) → Exec S (Post S V × List (Item V))
  unfolding pick_at
  work_on j p (streaming barrier handle) [] = do
    emit (stage_event step_completed p.name total)
    pure (record p { phase = closed }, [])
  work_on j p (streaming barrier handle) (i ∷ items) = do
    out ← handle (pick_at j i items).0
    pure (record p { queue = (pick_at j i items).1 }, out ∷ [])
  work_on j p (draining run) queue = do
    outs ← run queue
    pure (record p { phase = drained; queue = [] }, outs)

  unfoldable pub move_in : ℕ → Post S V → Phase → Exec S (Post S V × List (Item V))
  unfolding work_on
  move_in j p idle = do
    emit (stage_event step_started p.name total)
    pure (record p { phase = running }, [])
  move_in j p running = work_on j p p.engine p.queue
  move_in j p drained = do
    emit (stage_event step_completed p.name total)
    pure (record p { phase = closed }, [])
  move_in j p closed = pure (p, [])

  -- A move of one stage; `j` says which item a worker takes.
  unfoldable pub move : ℕ → Post S V → Exec S (Post S V × List (Item V))
  unfolding move_in
  move j p = wrapping (wrapped "stage %q") (move_in j p p.phase)

  -- A move of the stage `k`.
  unfoldable pub advance : ℕ → ℕ → List (Post S V) → List (Option (Item V)) → Exec S (Line S V)
  unfolding move deliver
  advance k j [] results = pure (record { posts = []; results = results })
  advance zero j (p ∷ ps) results = do
    out ← move j p
    pure (behind out.0 (deliver out.1 ps results))
  advance (suc k) j (p ∷ ps) results = do line ← advance k j ps results; pure (behind p line)

  -- group.Wait: the goroutines move until all are done, or one fails.
  unfoldable pub drive :
      (ℕ → List (Post S V) → ℕ × ℕ)
      → ℕ
      → List (Post S V)
      → List (Option (Item V))
      → Exec S (List (Option (Item V)))
  unfolding advance chosen all_closed
  drive schedule zero posts results =
      if all_closed posts then pure results else raise (message "unreachable")
  drive schedule (suc fuel) posts results =
      let go = (λ (line : Line S V). drive schedule fuel line.posts line.results) in
      if all_closed posts
      then pure results
      else (advance (chosen (schedule fuel posts).0 posts) (schedule fuel posts).1 posts results
          >>= go)

abbrev waiting_post : {S V : Type 0} → String × Engine S V → Post S V
waiting_post (name, engine) = record { name = name; engine = engine; phase = idle; queue = [] }

unfoldable pub open_line : {S V : Type 0} → List (String × Engine S V) → List (Post S V)
open_line [] = []
open_line (stage ∷ stages) = waiting_post stage ∷ open_line stages

module _ {S V : Type 0} where
  -- runStages, over the runners that were built.
  unfoldable pub run_stages :
      (Event → Exec S (Unit {0}))
      → (ℕ → List (Post S V) → ℕ × ℕ)
      → List (String × Engine S V)
      → List (Item V)
      → Exec S (List (Option (Item V)))
  unfolding drive open_line moves_left
  run_stages emit schedule stages inputs =
      let line = deliver inputs (open_line stages) (replicate (length inputs) none) in
      drive emit (length inputs) schedule (moves_left line.posts) line.posts line.results
