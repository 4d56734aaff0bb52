-- ===== src/Workflows/Queue/Simulation.antt =====
-- workflows/queue.py: parts of the queue with an index in Redis, as users of the repository.
use mathlib.Core.List.{◌++◌}
use autonomous_enterprise_ai.Base.{
  ◌≡◌, refl, sym, ◌∙◌, ap, Bool, true, false, List, [], ◌∷◌, Action, Result, and_then, return,
  raise, pure, ◌>>=◌, if◌then◌else◌,
}
use autonomous_enterprise_ai.Platform.{Platform}
use autonomous_enterprise_ai.Runs.Errors.{Error}
use autonomous_enterprise_ai.Runs.Repository.{Repository, Repo}
use autonomous_enterprise_ai.Runs.Jobs.Invariant.Steps.{Call, after, run_calls}
use autonomous_enterprise_ai.Workflows.Queue.{QueueState, Queue, in_repository, in_redis}

module _ (platform : Platform) where
  run_calls-append :
      (xs ys : List Call) (r : Repository)
      → run_calls platform (xs ++ ys) r ≡ run_calls platform ys (run_calls platform xs r)
  unfolding run_calls
  run_calls-append [] ys r = refl
  run_calls-append (x ∷ xs) ys r = run_calls-append xs ys (after platform x r)

  module _ {Store : Type 0} where
    -- What the state change does to the repository is what some calls of its job methods do.
    abbrev pub IsCalls : QueueState Store → QueueState Store → Type 0
    IsCalls s t = (calls : List Call) × (t.repository ≡ run_calls platform calls s.repository)

    pub IsCalls-trans : (s t u : QueueState Store) → IsCalls s t → IsCalls t u → IsCalls s u
    IsCalls-trans s t u (xs, e) (ys, f) =
        (xs ++ ys, f ∙ ap (run_calls platform ys) e ∙ sym (run_calls-append xs ys s.repository))

    pub record Simulates {A : Type 0} (m : Queue Store A) : Type 0 where
      pub at : (s : QueueState Store) → IsCalls s (m s).1

    pub Simulates-pure : {A : Type 0} (a : A) → Simulates (pure a)
    unfolding run_calls
    Simulates-pure a = record { at = λ s. ([], refl) }

    pub Simulates-in_redis : {A : Type 0} (m : Action Store Error A) → Simulates (in_redis m)
    unfolding run_calls
    Simulates-in_redis m = record { at = λ s. ([], refl) }

    pub Simulates-in_repository :
        {A : Type 0} (m : Repo A) (call : Call)
        → ((r : Repository) → (m r).1 ≡ after platform call r)
        → Simulates (in_repository m)
    unfolding run_calls
    Simulates-in_repository m call same = record { at = λ s. (call ∷ [], same s.repository) }

    pub Simulates-if :
        {A : Type 0} (b : Bool) (m n : Queue Store A)
        → Simulates m
        → Simulates n
        → Simulates (if b then m else n)
    Simulates-if true m n x y = x
    Simulates-if false m n x y = y

    pub Simulates-bind :
        {A B : Type 0} (m : Queue Store A) (f : A → Queue Store B)
        → Simulates m
        → ((a : A) → Simulates (f a))
        → Simulates (m >>= f)
    unfolding run_calls
    Simulates-bind {A} {B} m f x y = record { at = λ s. go s (m s).0 (m s).1 (x.at s) }
      where
        go :
            (s : QueueState Store) (a : Result Error A) (t : QueueState Store)
            → IsCalls s t
            → IsCalls s (and_then a f t).1
        go s (return a) t c = IsCalls-trans s t (f a t).1 c ((y a).at t)
        go s (raise e) t c = c
