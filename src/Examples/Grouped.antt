-- ===== src/Examples/Grouped.antt =====
-- A bulk step at concrete inputs, calls of at most two items that answer ten times an item, and the
-- responses to a group call.
use mathlib.Core.List.Permᴰ
use flowkit.Base.{
  sym, ap, ◌∙◌, suc, arith, String, true, false, get_elem?, replicate, ◌+◌, ◌≡◌, refl, subst,
  Option, List, ℕ, none, some, [], ◌∷◌, ◌==◌, if◌then◌else◌, map, ◌*◌,
}
use flowkit.Base.Int.{pos}
use flowkit.Errors.{Error, message, err, ok, Result}
use flowkit.Flow.Run.Aligned.{Gives}
use flowkit.Flow.Bulk.Engine.{BulkSpec, run_bulk}
use flowkit.Flow.Bulk.Complete.{Promises, Answered, run_bulk-Answered}
use flowkit.Flow.Bulk.Kept.{Pairs, Answers}
use flowkit.Examples.Rules.{cents}
use flowkit.Examples.Runs.{keeper, calls, step}
use flowkit.Flow.Runner.{Step}
use flowkit.Flow.Classify.{data_class}
use flowkit.Execution.Outcome.{no_outcome}
use flowkit.Flow.Report.{ItemResult}
use flowkit.Flow.Batched.{
  GroupValue, raw, cover_groups, cover_group, place_responses, empty_result, uncovered,
}
use flowkit.Flow.Batched.Covered.{indexes_of}
use flowkit.Flow.Batched.Placed.{Places, Sorted, place_responses-Sorted}

-- A step whose provider refuses eight, as a fault of the data.
abbrev picky : Step ℕ ℕ ℕ ℕ
picky = record step {
  policy = record (step.policy) {
    admission = record calls { budget = pos 9 } ∷ [];
    retry = record (step.policy.retry) { class = some (λ e. data_class) };
  };
  do_work = some (λ i w. ((i + 1, if i == 8 then some (message "bad") else none), w + 1));
}

-- The same without a key, since it keeps nothing.
abbrev unkept : Step ℕ ℕ ℕ ℕ
unkept = record picky { key_digest = λ x. err (message "no key") }

abbrev tens : BulkSpec ℕ ℕ
tens = record { do_bulk = some (λ vs w. ((map (λ v. v * 10) vs, none), w + 1)); batch_size = pos 2 }

tenfold : (items : List ℕ) → Pairs (λ x v. v ≡ x * 10) items (map (λ v. v * 10) items)
tenfold [] = tt
tenfold (x ∷ items) = (refl, tenfold items)

tens-Answers :
    (f : List ℕ → ℕ → (List ℕ × Option Error) × ℕ)
    → tens.do_bulk ≡ some f
    → Answers (λ x v. v ≡ x * 10) f
tens-Answers f e =
    subst (λ g. Answers (λ x v. v ≡ x * 10) g) (some_is e) (λ items w long. tenfold items)
  where
    some_is : {a b : List ℕ → ℕ → (List ℕ × Option Error) × ℕ} → some a ≡ some b → a ≡ b
    some_is e = cc

tens-Promises : Promises (λ x v. v ≡ x * 10) cents tens unkept
tens-Promises = record {
  works = tens-Answers;
  loads = λ ops d w x v e. absurd (cc);
  same = λ x y v d e. absurd (cc);
}

run_bulk-Answered_example :
    Gives
      (Answered (λ x v. v ≡ x * 10) (7 ∷ 8 ∷ 9 ∷ []))
      (run_bulk cents keeper (λ jobs. jobs) tens unkept (7 ∷ 8 ∷ 9 ∷ []))
run_bulk-Answered_example =
    run_bulk-Answered cents keeper (λ jobs. jobs) tens unkept (7 ∷ 8 ∷ 9 ∷ []) (λ x v. v ≡ x * 10)
      tens-Promises (λ jobs. Permᴰ.refl jobs)

abbrev tenth : Option ℕ → Option ℕ
tenth none = none
tenth (some x) = some (x * 10)

tenth_is : (o : Option ℕ) (x v : ℕ) → o ≡ some x → tenth o ≡ some v → v ≡ x * 10
tenth_is none x v e h = absurd (cc)
tenth_is (some y) x v e h = sym (some_is h) ∙ ap (λ n. n * 10) (some_is e)
  where
    some_is : {a b : ℕ} → some a ≡ some b → a ≡ b
    some_is e = cc

-- Ten times each member.
abbrev split_tens : String → List ℕ → Result (ℕ → Option ℕ)
split_tens text vs = ok (λ k. tenth (get_elem? vs k))

split_tens-Places :
    (vs : List ℕ) (k : ℕ) (rest : List ℕ)
    → ((j : ℕ) → get_elem? vs (k + j) ≡ get_elem? rest j)
    → Places (λ x v. v ≡ x * 10) (split_tens "" vs) k rest
split_tens-Places vs k [] h = tt
split_tens-Places vs k (x ∷ rest) h = (
  (λ v e.
      tenth_is (get_elem? vs k) x v (subst (λ n. get_elem? vs n ≡ some x) (omega arith) (h 0)) e),
  split_tens-Places vs (suc k) rest
      (λ j. subst (λ n. get_elem? vs n ≡ get_elem? rest j) (omega arith) (h (suc j))),
)

abbrev response : ItemResult (GroupValue ℕ)
response = record {
  value = some (raw "seventy, ninety");
  cache = no_outcome;
  quarantined = none;
  skipped = false;
}

checked :
    cover_groups ((pos 0 ∷ pos 2 ∷ []) ∷ []) (replicate 3 false) ≡ ok (true ∷ false ∷ true ∷ [])
unfolding cover_groups cover_group
checked = refl

place_responses-Sorted_example :
    Gives {F = ℕ} {W = ℕ} (Sorted (λ x v. v ≡ x * 10) (7 ∷ 8 ∷ 9 ∷ [])) (
      place_responses none split_tens
        (7 ∷ 8 ∷ 9 ∷ [])
        (indexes_of ((pos 0 ∷ pos 2 ∷ []) ∷ []))
        (response ∷ [])
        (replicate 3 empty_result, uncovered 0 (true ∷ false ∷ true ∷ [])))
place_responses-Sorted_example =
    place_responses-Sorted none (λ x v. v ≡ x * 10) split_tens
      (λ text vs.
        split_tens-Places vs 0 vs
          (λ j. subst (λ n. get_elem? vs n ≡ get_elem? vs j) (omega arith) refl))
      (7 ∷ 8 ∷ 9 ∷ []) ((pos 0 ∷ pos 2 ∷ []) ∷ []) (true ∷ false ∷ true ∷ []) (response ∷ [])
      checked refl
