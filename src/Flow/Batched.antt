-- ===== src/Flow/Batched.antt =====
-- flow/batch.go: Batched steps, for a repair step with a Do function of its own. The values that move
-- in the run of the group calls are the members of a group and the raw text of its response.
pub mod Complete
pub mod Covered
pub mod Engine
pub mod Placed
pub mod Repaired
use flowkit.Base.{
  ℕ, suc, String, Bool, true, false, not, ◌&&◌, Option, none, some, List, [], ◌∷◌, ◌++◌,
  if◌then◌else◌, length, get_elem?, set,
}
use flowkit.Base.Int.{ℤ, pos, pos_part, ltb_ℤ}
use flowkit.Errors.{Error, message, wrapped, Result, ok, err}
use flowkit.Exec.{◌>>=◌, ◌>>◌, pure, fail_with}
use flowkit.Execution.Outcome.{CacheOutcome, no_outcome}
use flowkit.Flow.Observe.{Act, tell}
use flowkit.Flow.Policy.{Policy}
use flowkit.Flow.Report.{ItemResult, Event}
use flowkit.Flow.Runner.{StoreOps, Step}
use flowkit.Flow.Stages.{at_item}

-- A group's members, or the raw response to its call.
pub data GroupValue (V : Type 0) : Type 0 where
  members : List V → GroupValue V
  raw : String → GroupValue V

-- The functions of a BatchSpec. Split gives the results by the position within the group.
pub record BatchCalls (V W : Type 0) : Type 0 where
  pub group : List V → List (List ℤ)
  pub do_all : List V → W → (String × Option Error) × W
  pub split : String → List V → Result (ℕ → Option V)

-- A BatchSpec; `calls` is none where one of its functions is nil.
pub record BatchSpec (F V W : Type 0) : Type 0 where
  pub name : String
  pub kind : String
  pub key_digest : List V → Result String
  pub policy : Policy F
  pub calls : Option (BatchCalls V W)
  pub store : Option (StoreOps (GroupValue V) W)

abbrev pub OnResult : Type 0 → Type 0 → Type 0
OnResult V W = Option (ℕ → V → CacheOutcome → W → Option Error × W)

abbrev pub is_member : ℕ → ℤ → Bool
is_member total i = not (ltb_ℤ i (pos 0)) && ltb_ℤ i (pos total)

abbrev pub is_covered : List Bool → ℕ → Bool
is_covered covered i = elim (get_elem? covered i) [ none ↦ false | some b ↦ b ]

-- The loop over the indexes of a group.
unfoldable pub cover_group : List ℤ → List Bool → Result (List Bool)
cover_group [] covered = ok covered
cover_group (i ∷ is) covered =
    let rest = cover_group is (set covered (pos_part i) true) in
    if not (is_member (length covered) i)
    then err (message "batched step %q: group %d references item %d outside [0,%d)")
    else if is_covered covered (pos_part i)
    then err (message "batched step %q: item %d appears in more than one group")
    else rest

unfoldable pub cover_groups : List (List ℤ) → List Bool → Result (List Bool)
unfolding cover_group
cover_groups [] covered = ok covered
cover_groups (g ∷ groups) covered = elim (cover_group g covered) [
  | err e ↦ err e
  | ok now ↦ cover_groups groups now
]

-- The items that no group has, from index `k` on.
unfoldable pub uncovered : ℕ → List Bool → List ℕ
uncovered k [] = []
uncovered k (b ∷ covered) = let rest = uncovered (suc k) covered in if b then rest else k ∷ rest

-- items[i] for each index i of a group
unfoldable pub members_at : {V : Type 0} → List V → List ℕ → List V
members_at items [] = []
members_at items (i ∷ is) =
    let rest = members_at items is in elim (get_elem? items i) [ none ↦ rest | some v ↦ v ∷ rest ]

-- The original index of an index of the compact slice; one outside stays.
abbrev pub original_index : List ℕ → ℕ → ℕ
original_index indexes k = elim (get_elem? indexes k) [ none ↦ k | some i ↦ i ]

-- remappedLedger.Event
unfoldable pub remap_event : List ℕ → Event → Event
remap_event indexes event = elim event.index [
  | none ↦ event
  | some k ↦ record event { index = some (original_index indexes k) }
]

abbrev pub remap_ledger :
    {W : Type 0}
    → List ℕ
    → Option (Event → W → Option Error × W)
    → Option (Event → W → Option Error × W)
remap_ledger indexes none = none
remap_ledger indexes (some ledger) = some (λ event. ledger (remap_event indexes event))

abbrev pub remap_hook : {V W : Type 0} → List ℕ → OnResult V W → OnResult V W
remap_hook missing none = none
remap_hook missing (some f) = some (λ k. f (original_index missing k))

abbrev pub parsed_at : {V : Type 0} → Result (ℕ → Option V) → ℕ → Option V
parsed_at (err e) k = none
parsed_at (ok parsed) k = parsed k

abbrev pub text_of : {V : Type 0} → Option (GroupValue V) → String
text_of none = ""
text_of (some (members vs)) = ""
text_of (some (raw text)) = text

abbrev pub value_result : {V : Type 0} → V → ItemResult V
value_result v = record { value = some v; cache = no_outcome; quarantined = none; skipped = false }

abbrev pub empty_result : {V : Type 0} → ItemResult V
empty_result = record { value = none; cache = no_outcome; quarantined = none; skipped = false }

abbrev pub is_set_aside : {V : Type 0} → ItemResult V → Bool
is_set_aside r = elim r.quarantined [ none ↦ r.skipped | some e ↦ true ]

-- The results so far, and the indexes that are to be repaired.
abbrev pub Parsed : Type 0 → Type 0
Parsed V = List (ItemResult V) × List ℕ

module _ {F V W : Type 0} (on_result : OnResult V W) where
  unfoldable pub observe : ℕ → V → CacheOutcome → Act F W (Unit {0})
  observe i v outcome = elim on_result [
    | none ↦ pure tt
    | some f ↦ tell (f i v outcome) >>= fail_with (wrapped "step %q item %d: result hook: %w")
  ]

  -- The loop over the positions of a group, from the `k`-th on.
  unfoldable pub place_group : Result (ℕ → Option V) → ℕ → List ℕ → Parsed V → Act F W (Parsed V)
  unfolding observe
  place_group parsed k [] p = pure p
  place_group parsed k (i ∷ is) p = elim (parsed_at parsed k) [
    | none ↦ place_group parsed (suc k) is (p.0, p.1 ++ i ∷ [])
    | some v ↦
        observe i v no_outcome >> place_group parsed (suc k) is (set p.0 i (value_result v), p.1)
  ]

  -- The response to one group's call.
  unfoldable pub place_response :
      (String → List V → Result (ℕ → Option V))
      → List V
      → List ℕ
      → ItemResult (GroupValue V)
      → Parsed V
      → Act F W (Parsed V)
  unfolding place_group
  place_response split items group r p =
      if is_set_aside r
      then pure (p.0, p.1 ++ group)
      else place_group (split (text_of r.value) (members_at items group)) 0 group p

  -- The loop over the responses.
  unfoldable pub place_responses :
      (String → List V → Result (ℕ → Option V))
      → List V
      → List (List ℕ)
      → List (ItemResult (GroupValue V))
      → Parsed V
      → Act F W (Parsed V)
  unfolding place_response
  place_responses split items [] rs p = pure p
  place_responses split items (g ∷ groups) [] p = pure p
  place_responses split items (g ∷ groups) (r ∷ rs) p =
      place_response split items g r p >>= λ q. place_responses split items groups rs q

  abbrev observe_repaired : ℕ → ItemResult V → Act F W (Unit {0})
  observe_repaired i r =
      if is_set_aside r
      then pure tt
      else elim r.value [ none ↦ pure tt | some v ↦ observe i v r.cache ]

  -- The loop over the repaired items.
  unfoldable pub place_repaired :
      List ℕ → List (ItemResult V) → List (ItemResult V) → Act F W (List (ItemResult V))
  place_repaired [] rs results = pure results
  place_repaired (i ∷ is) [] results = pure results
  place_repaired (i ∷ is) (r ∷ rs) results =
      observe_repaired i r
      >> place_repaired is rs (set results i (record r { quarantined = at_item i r.quarantined }))

module _ {V : Type 0} where
  abbrev pub accepts_members : GroupValue V → Bool
  accepts_members (members vs) = true
  accepts_members (raw text) = false

module _ {F V W : Type 0} (spec : BatchSpec F V W) (repair : Step F V V W) where
  abbrev called_all : BatchCalls V W → GroupValue V → W → (GroupValue V × Option Error) × W
  called_all calls (members vs) w = let ((text, e), v) = calls.do_all vs w in ((raw text, e), v)
  called_all calls (raw text) w = ((raw text, none), w)

  abbrev group_key : GroupValue V → Result String
  group_key (members vs) = spec.key_digest vs
  group_key (raw text) = err (message "a response has no key")

  -- groupStep
  unfoldable pub group_step :
      BatchCalls V W
      → Option (Event → W → Option Error × W)
      → Step F (GroupValue V) (GroupValue V) W
  group_step calls ledger = record {
    name = spec.name;
    kind = spec.kind;
    key_digest = group_key;
    policy = spec.policy;
    do_work = some (called_all calls);
    meter = none;
    attempt_meter = none;
    on_result = none;
    store = spec.store;
    ledger = ledger;
    draw = repair.draw;
    pause = repair.pause;
    picks_done = repair.picks_done;
  }

module _ {F V W : Type 0} (repair : Step F V V W) where
  -- repairForRun
  unfoldable pub repair_for_run : List ℕ → Option (Event → W → Option Error × W) → Step F V V W
  unfolding remap_event
  repair_for_run missing ledger = record repair {
    on_result = remap_hook missing repair.on_result;
    ledger = remap_ledger missing ledger;
  }
