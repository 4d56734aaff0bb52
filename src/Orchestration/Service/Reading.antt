-- ===== src/Orchestration/Service/Reading.antt =====
-- orchestration/service.py: the parts of the service that only read the repository.
use mathlib.Core.List.{◌++◌}
use autonomous_enterprise_ai.Base.{
  ◌≡◌, refl, sym, ap, ◌∙◌, String, Bool, Option, none, some, List, [], ◌∷◌, Result, return, raise,
  pure, throw, and_then, ◌>>=◌,
}
use autonomous_enterprise_ai.Base.Dict.{lookup}
use autonomous_enterprise_ai.Json.{Value, Fields, null, bool, num, str, arr, obj}
use autonomous_enterprise_ai.Platform.{Platform}
use autonomous_enterprise_ai.Runs.Errors.{Error}
use autonomous_enterprise_ai.Runs.Models.{GraphNodeRecord}
use autonomous_enterprise_ai.Runs.Repository.{Repository, Repo, found_or_raise, get_run}
use autonomous_enterprise_ai.Runs.Artifacts.{get_artifact, artifacts_of}
use autonomous_enterprise_ai.Orchestration.Service.{
  as_dict, as_items, value_at, dict_at, plan_of, plan_item, known_artifacts,
}
use autonomous_enterprise_ai.Orchestration.Service.Authorization.{as_text, task_of}
use autonomous_enterprise_ai.Orchestration.Service.Context.{
  find_artifact, find_artifacts, policy_context_for_tool,
}

-- The action leaves the repository as it was, also where it raises.
pub record IsReading {A : Type 0} (m : Repo A) : Type 0 where
  pub at : (r : Repository) → (m r).1 ≡ r

module _ {A : Type 0} where
  IsReading-pure : (a : A) → IsReading (pure a)
  IsReading-pure a = record { at = λ r. refl }

  IsReading-throw : (e : Error) → IsReading {A = A} (throw e)
  IsReading-throw e = record { at = λ r. refl }

  pub IsReading-found : (e : Error) (o : Option A) → IsReading (found_or_raise e o)
  IsReading-found e none = IsReading-throw e
  IsReading-found e (some a) = IsReading-pure a

and_then-IsReading :
    {A B : Type 0} (x : Result Error A) (f : A → Repo B) (r : Repository)
    → ((a : A) → IsReading (f a))
    → (and_then x f r).1 ≡ r
and_then-IsReading (return a) f r h = (h a).at r
and_then-IsReading (raise e) f r h = refl

IsReading-bind :
    {A B : Type 0} (m : Repo A) (f : A → Repo B)
    → IsReading m
    → ((a : A) → IsReading (f a))
    → IsReading (m >>= f)
IsReading-bind m f x y = record { at = λ r. and_then-IsReading (m r).0 f (m r).1 y ∙ x.at r }

IsReading-get_run : (run_id : String) → IsReading (get_run run_id)
IsReading-get_run run_id = record { at = λ r. (IsReading-found _ (lookup run_id r.runs)).at r }

IsReading-artifacts_of : (run_id : String) → IsReading (artifacts_of run_id)
IsReading-artifacts_of run_id = record {
  at = λ r. (IsReading-found _ (lookup run_id r.artifacts)).at r;
}

IsReading-as_dict : (v : Value) → IsReading (as_dict v)
IsReading-as_dict (obj fs) = IsReading-pure fs
IsReading-as_dict _ = IsReading-throw _

IsReading-as_items : (v : Value) → IsReading (as_items v)
IsReading-as_items (arr xs) = IsReading-pure xs
IsReading-as_items _ = IsReading-throw _

IsReading-value_at : (key : String) (state : Fields) → IsReading (value_at key state)
IsReading-value_at key state = IsReading-found _ _

ruleset reading = (
  IsReading-pure, IsReading-throw, IsReading-found, IsReading-bind, IsReading-get_run,
  IsReading-artifacts_of, IsReading-as_dict, IsReading-as_items, IsReading-value_at,
)

pub IsReading-dict_at : (key : String) (state : Fields) → IsReading (dict_at key state)
unfolding dict_at
IsReading-dict_at key state = search reading

IsReading-plan_of : (state : Fields) → IsReading (plan_of state)
unfolding plan_of
IsReading-plan_of state = search reading

IsReading-plan_item : (state : Fields) (node_id : String) → IsReading (plan_item state node_id)
unfolding plan_item
IsReading-plan_item state node_id = search (reading, IsReading-plan_of)

IsReading-known_artifacts : (state : Fields) → IsReading (known_artifacts state)
unfolding known_artifacts
IsReading-known_artifacts state = search (reading, IsReading-dict_at)

IsReading-get_artifact : (run_id artifact_id : String) → IsReading (get_artifact run_id artifact_id)
unfolding get_artifact
IsReading-get_artifact run_id artifact_id = search reading

IsReading-find_artifact :
    (run_id artifact_id : String) → IsReading (find_artifact run_id artifact_id)
unfolding find_artifact
IsReading-find_artifact run_id artifact_id = record {
  at = (IsReading-get_artifact run_id artifact_id).at;
}

IsReading-find_artifacts :
    (run_id : String) (ids : List String) → IsReading (find_artifacts run_id ids)
unfolding find_artifacts
IsReading-find_artifacts run_id [] = IsReading-pure []
IsReading-find_artifacts run_id (artifact_id ∷ ids) =
    IsReading-bind (find_artifact run_id artifact_id)
      (λ found. find_artifacts run_id ids >>= λ rest. pure (found ++ rest))
      (IsReading-find_artifact run_id artifact_id)
      (λ found.
        IsReading-bind (find_artifacts run_id ids) (λ rest. pure (found ++ rest))
          (IsReading-find_artifacts run_id ids) (λ rest. IsReading-pure (found ++ rest)))

module _ (platform : Platform) where
  IsReading-as_text : (v : Value) → IsReading (as_text platform v)
  IsReading-as_text (str s) = IsReading-pure s
  IsReading-as_text null = IsReading-throw _
  IsReading-as_text (bool b) = IsReading-throw _
  IsReading-as_text (num n) = IsReading-throw _
  IsReading-as_text (arr xs) = IsReading-throw _
  IsReading-as_text (obj fs) = IsReading-throw _

  pub IsReading-task_of :
      (state : Fields) (node_id : String) → IsReading (task_of platform state node_id)
  unfolding task_of
  IsReading-task_of state node_id = search (reading, IsReading-plan_item, IsReading-as_text)

  pub IsReading-context :
      (node : GraphNodeRecord) (state : Fields) (summary : String) (approved : Bool)
      → IsReading (policy_context_for_tool platform node state summary approved)
  unfolding policy_context_for_tool
  IsReading-context node state summary approved =
      search (reading, IsReading-known_artifacts, IsReading-find_artifacts)

-- An action that only reads, and that returned.
pub IsReading-return :
    {A : Type 0} (m : Repo A) {r s : Repository} {a : A} → IsReading m → m r ≡ (return a, s) → r ≡ s
IsReading-return m {r} h e = sym (h.at r) ∙ ap (λ p. p.1) e
