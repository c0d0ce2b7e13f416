-- ===== src/Flow/Runner/Attempts.antt =====
-- What the attempts of one item (work of flow/run.go) add to the counters of its step.
use flowkit.Base.{
  ◌≡◌, refl, sym, subst, ℕ, zero, suc, ◌==◌, String, Bool, true, false, ◌&&◌, Option, none, some,
  arith,
}
use flowkit.Base.Int.{ℤ}
use flowkit.Base.Float.{FloatOps}
use flowkit.Errors.{Error}
use flowkit.Flow.Classify.{ErrorClass, transient, data_class, fatal, other}
use flowkit.Exec.{◌>>=◌}
use flowkit.Flow.Admit.{Gatekeeper}
use flowkit.Flow.Runner.{StoreOps, Runner, Item}
use flowkit.Flow.Runner.Work.{
  Act, call, success, fail, enter, back_off, count_retry, start_if, called_once, meters_of, calling,
  attempt_once, judge, is_transient, announce_retry, retry_or_fail, no_more, resume, after_attempt,
  attempt_from,
}
use flowkit.Flow.Runner.Counts.{
  Runs, Same, bind-Runs, Quiet-bind, pure-Quiet, both-Runs, bind-Runs, Runs-weaken,
}
use flowkit.Flow.Runner.Untouched.{
  event-Quiet, metered-Quiet, enter-Quiet, back_off-Quiet, judge-Quiet,
}
use flowkit.Flow.Runner.Tallies.{
  Tries, Ends, Rest, Tries-none, Rest-none, Rest-end, made, Made, Called, Tries-made, Counted,
  Rest-Counted, Rest-retry,
}
use flowkit.Flow.Runner.Ending.{count-then, success-Ends, fail-Ends}

module _ {F I O W : Type 0} (fl : FloatOps F) (k : Gatekeeper F W) (r : Runner F I O W) where
  -- The call of an attempt that has been admitted and counted.
  calling-Runs :
      (item : I)
      → Runs
          (λ a c. c ≡ called_once fl k r a)
          (λ a c. c ≡ called_once fl k r a)
          (calling fl k r item)
  calling-Runs item =
      both-Runs (λ a c. c ≡ called_once fl k r a) Same (λ a c. c ≡ called_once fl k r a)
        (λ a c. c ≡ called_once fl k r a) (λ a c. c ≡ called_once fl k r a)
        (λ a c. c ≡ called_once fl k r a) (call fl k r (r.work_fn item)) _
        (record { at = λ s. refl })
        (λ out.
          count-then fl k r Same Same _ _ (called_once fl k r) _
            (Quiet-bind Same (λ a. refl) _ _ (metered-Quiet fl k r (meters_of fl k r out))
              (λ _. pure-Quiet out))
            (λ a c e. e) (λ a c e. e))
        (λ a b e. e) (λ a b c e. subst (λ x. c ≡ called_once fl k r x) e)
        (λ a b c e. subst (λ x. c ≡ called_once fl k r x) e)

  -- Where an attempt ends in an error of the run, its call may have been made fl k r.
  attempt_once-Runs :
      (attempt n : ℕ) (item : I)
      → Runs
          (Tries (attempt == 1) n)
          (λ a b. b ≡ made fl k r (attempt == 1) a)
          (attempt_once fl k r attempt item)
  unfolding attempt_once
  attempt_once-Runs attempt n item =
      both-Runs Same Same (Tries (attempt == 1) n) (Made fl k r (attempt == 1))
        (Tries (attempt == 1) n) (Made fl k r (attempt == 1)) (enter fl k r) _ (enter-Quiet fl k r)
        (λ _.
          count-then fl k r (Called fl k r) (Called fl k r) (Tries (attempt == 1) n)
            (Made fl k r (attempt == 1)) (start_if fl k r (attempt == 1)) (calling fl k r item)
            (calling-Runs item)
            (λ a c e. Tries-made fl k r (attempt == 1) n a c (
              subst (Rest n (made fl k r (attempt == 1) a)) (sym e)
                (Rest-none n (made fl k r (attempt == 1) a))))
            (λ a c e. e))
        (λ a c e. subst (Tries (attempt == 1) n a) (sym e) (Tries-none (attempt == 1) n a))
        (λ a d c e. subst (λ x. Tries (attempt == 1) n x c) e)
        (λ a d c e. subst (λ x. c ≡ made fl k r (attempt == 1) x) e)

  fail-Rest :
      (n index : ℕ) (e : Error) (c : ErrorClass) (attempts : ℕ)
      → Runs (Rest n) (Rest n) (fail fl k r index e c attempts)
  fail-Rest n index e c attempts =
      Runs-weaken Ends (Rest n) _ (fail-Ends fl k r index e c attempts) (Rest-end n)

  success-Rest :
      (n index : ℕ) (v : O) (key : Option (String × StoreOps O W))
      → Runs (Rest n) (Rest n) (success fl k r index v key)
  success-Rest n index v key =
      Runs-weaken Ends (Rest n) _ (success-Ends fl k r index v key) (Rest-end n)

  retry_or_fail-Rest :
      (n : ℕ) (b : Bool) (again : Act fl k r (Item O)) (index : ℕ) (e : Error) (c : ErrorClass)
      (attempt : ℕ)
      → Runs (Tries false n) (Tries false n) again
      → Runs (Rest (suc n)) (Rest (suc n)) (retry_or_fail fl k r b again index e c attempt)
  unfolding announce_retry
  retry_or_fail-Rest n false again index e c attempt h = fail-Rest (suc n) index e c attempt
  retry_or_fail-Rest n true again index e c attempt h =
      both-Runs (Rest (suc n)) (Counted fl k r c) (Tries false n) (Tries false n) (Rest (suc n))
        (Rest (suc n)) (announce_retry fl k r index attempt e c) (λ _. again)
        (count-then fl k r Same Same (Rest (suc n)) (Counted fl k r c) (count_retry fl k r c) _
          (event-Quiet fl k r _) (Rest-Counted fl k r n c) (λ x z g. g))
        (λ _. h) (λ x y t. t)
        (λ x y z g t. Rest-retry fl k r n x z c (subst (λ u. Tries false n u z) g t))
        (λ x y z g t. Rest-retry fl k r n x z c (subst (λ u. Tries false n u z) g t))

  last-Rest :
      (n : ℕ) (again : Act fl k r (Item O)) (index : ℕ) (e : Error) (c : ErrorClass) (attempt : ℕ)
      → Runs
          (Rest n)
          (Rest n)
          (retry_or_fail fl k r (is_transient fl k r c && false) again index e c attempt)
  last-Rest n again index e transient attempt = fail-Rest n index e _ attempt
  last-Rest n again index e data_class attempt = fail-Rest n index e _ attempt
  last-Rest n again index e fatal attempt = fail-Rest n index e _ attempt
  last-Rest n again index e (other c) attempt = fail-Rest n index e _ attempt

  judged-Rest :
      (n : ℕ) (e : Error) (f : ErrorClass → Act fl k r (Item O))
      → ((c : ErrorClass) → Runs (Rest n) (Rest n) (f c))
      → Runs (Rest n) (Rest n) (judge fl k r e >>= f)
  judged-Rest n e f h =
      Quiet-bind (Rest n) (Rest-none n) (judge fl k r e) f (judge-Quiet fl k r e) h

  after_last-Rest :
      (n : ℕ) (again : ℤ → Act fl k r (Item O)) (attempt index : ℕ) (delay : ℤ)
      (key : Option (String × StoreOps O W)) (out : O × Option Error)
      → Runs (Rest n) (Rest n) (after_attempt fl k r again false attempt index delay key out)
  after_last-Rest n again attempt index delay key (v, none) = success-Rest n index v key
  after_last-Rest n again attempt index delay key (v, some e) =
      judged-Rest n e _ (λ c. last-Rest n (again delay) index e c attempt)

  after_attempt-Rest :
      (n : ℕ) (again : ℤ → Act fl k r (Item O)) (attempt index : ℕ) (delay : ℤ)
      (key : Option (String × StoreOps O W)) (out : O × Option Error)
      → Runs (Tries false n) (Tries false n) (again delay)
      → Runs
          (Rest (suc n))
          (Rest (suc n))
          (after_attempt fl k r again true attempt index delay key out)
  after_attempt-Rest n again attempt index delay key (v, none) h = success-Rest (suc n) index v key
  after_attempt-Rest n again attempt index delay key (v, some e) h =
      judged-Rest (suc n) e _ (λ c. retry_or_fail-Rest n _ (again delay) index e c attempt h)

  attempted :
      (attempt n : ℕ) (item : I) (f : O × Option Error → Act fl k r (Item O))
      → ((out : O × Option Error) → Runs (Rest n) (Rest n) (f out))
      → Runs
          (Tries (attempt == 1) n)
          (Tries (attempt == 1) n)
          (attempt_once fl k r attempt item >>= f)
  attempted attempt n item f h =
      bind-Runs (Tries (attempt == 1) n) (Made fl k r (attempt == 1)) (Rest n)
        (Tries (attempt == 1) n) _ f (attempt_once-Runs attempt n item) h (λ a c t. t)
        (λ a d c e t. Tries-made fl k r (attempt == 1) n a c (subst (λ x. Rest n x c) e t))

  second_start : (n : ℕ) → (suc (suc n) == 1) ≡ false
  second_start n = ground arith

  resume-Tries :
      (n : ℕ) (next : ℤ → Act fl k r (Item O)) (delay : ℤ)
      → ((d : ℤ) → Runs (Tries false n) (Tries false n) (next d))
      → Runs (Tries false n) (Tries false n) (resume fl k r next delay)
  resume-Tries n next delay h =
      Quiet-bind (Tries false n) (Tries-none false n) (back_off fl k r delay) _
        (back_off-Quiet fl k r delay) (λ _. h _)

  pub attempt_from-Tries :
      (left n index : ℕ) (item : I) (key : Option (String × StoreOps O W)) (delay : ℤ)
      → Runs
          (Tries (suc n == 1) left)
          (Tries (suc n == 1) left)
          (attempt_from fl k r left (suc n) index item key delay)
  unfolding attempt_from
  attempt_from-Tries zero n index item key delay =
      attempted (suc n) 0 item _
        (λ out. after_last-Rest 0 (no_more fl k r) (suc n) index delay key out)
  attempt_from-Tries (suc left) n index item key delay = attempted (suc n) (suc left) item _ (λ out.
      after_attempt-Rest left (resume fl k r next) (suc n) index delay key out (
        resume-Tries left next delay (λ d.
          subst (λ b. Runs (Tries b left) (Tries b left) (next d)) (second_start n)
            (attempt_from-Tries left (suc n) index item key d))))
    where
      next : ℤ → Act fl k r (Item O)
      next = attempt_from fl k r left (suc (suc n)) index item key
