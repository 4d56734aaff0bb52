-- ===== src/Orchestration/Service/Reports.antt =====
-- orchestration/service.py: the plan, the nodes and the status that a result reports.
use autonomous_enterprise_ai.Base.{
  All, all_of, ◌≡◌, ◌≢◌, subst, refl, ◌∙◌, ap, String, true, Option, none, some, List, [], ◌∷◌,
  arith, return,
}
use autonomous_enterprise_ai.Base.Dict.{Dict, lookup}
use autonomous_enterprise_ai.Json.{
  Value, Fields, Items, null, bool, num, str, arr, obj, get, dict_list, get-put,
}
use autonomous_enterprise_ai.Runs.Errors.{Error, key_error, type_error}
use autonomous_enterprise_ai.Runs.Models.{RunStatus, GraphNodeStatus, GraphNodeRecord}
use autonomous_enterprise_ai.Runs.Repository.{Repository, Repo, found_or_raise}
use autonomous_enterprise_ai.Runs.History.{list_graph_nodes}
use autonomous_enterprise_ai.Orchestration.State.{is_completed, sync_state_from_node_statuses}
use autonomous_enterprise_ai.Orchestration.Service.{
  OrchestrationResult, nodes_by_id, pick, pick_error, plan_of, as_items, ordered_nodes, statuses_of,
  refresh_state_from_nodes, result,
}
use autonomous_enterprise_ai.Orchestration.Service.Resume.{all_completed}
use autonomous_enterprise_ai.Orchestration.Service.Keeps.{
  KeepsNodes-ordered_nodes, KeepsNodes-get_run, KeepsNodes-value_at,
}
use autonomous_enterprise_ai.Orchestration.Service.Ensures.{
  GraphNodes, Ensures, Ensures-pure, Ensures-bind, Ensures-then, Ensures-found, Ensures-final,
  Ensures-given,
}

is_completed-eq :
    (status : GraphNodeStatus) → is_completed status ≡ true → status ≡ GraphNodeStatus.completed
is_completed-eq GraphNodeStatus.completed e = refl
is_completed-eq GraphNodeStatus.pending e = cc
is_completed-eq GraphNodeStatus.running e = cc
is_completed-eq GraphNodeStatus.waiting_for_approval e = cc
is_completed-eq GraphNodeStatus.failed e = cc
is_completed-eq GraphNodeStatus.skipped e = cc

plan_kept :
    (state : Fields) (statuses : Dict GraphNodeStatus)
    → get "plan" (sync_state_from_node_statuses state statuses) ≡ get "plan" state
unfolding sync_state_from_node_statuses
plan_kept state statuses =
    get-put _ "plan" _ _ ∙ get-put _ "plan" _ _ ∙ get-put _ "plan" _ _ ∙ get-put _ "plan" _ _

abbrev pub Anything : GraphNodes → Type 0
Anything g = Unit {0}

pub Ensures-nothing :
    {A : Type 0} {P : GraphNodes → Type 0} (m : Repo A) → Ensures P m (λ a. Anything)
Ensures-nothing m = record { at = λ r a s p e. tt }

refresh-Plan :
    (P : GraphNodes → Type 0) (run_id : String) (state : Fields)
    → Ensures P
        (refresh_state_from_nodes run_id state)
        (λ refreshed g. P g × (get "plan" refreshed ≡ get "plan" state))
unfolding refresh_state_from_nodes
refresh-Plan P run_id state = Ensures-then _ _ (KeepsNodes-ordered_nodes run_id state) (λ nodes.
    Ensures-pure (sync_state_from_node_statuses state (statuses_of [] nodes)) _
      (λ g p. (p, plan_kept state (statuses_of [] nodes))))

-- The result has the status, and the plan of the state.
abbrev pub Reports : RunStatus → Fields → OrchestrationResult → Type 0
Reports status state answer =
    (answer.status ≡ status) × (get "plan" answer.state ≡ get "plan" state)

pub result-Reports :
    (P : GraphNodes → Type 0) (run_id : String) (status : RunStatus) (state : Fields)
    → Ensures P (result run_id status state) (λ answer g. P g × Reports status state answer)
unfolding result
result-Reports P run_id status state = Ensures-bind _ _ (refresh-Plan P run_id state) (λ refreshed.
    Ensures-given _ (λ same.
      Ensures-then _ _ (KeepsNodes-value_at "completed_node_ids" refreshed) (λ completed.
        Ensures-then _ _ (KeepsNodes-value_at "failed_node_ids" refreshed) (λ failed.
          Ensures-then _ _ (KeepsNodes-value_at "waiting_for_approval_node_id" refreshed)
            (λ waiting.
              Ensures-pure
                (record {
                  run_id = run_id;
                  status = status;
                  state = refreshed;
                  completed_node_ids = completed;
                  failed_node_ids = failed;
                  waiting_for_approval_node_id = waiting;
                })
                _ (λ g p. (p, (refl, same))))))))

-- The nodes are those of the repository that the plan of the state names.
abbrev pub IsPlanned : (run_id : String) → Fields → List GraphNodeRecord → GraphNodes → Type 0
IsPlanned run_id state nodes g =
    (stored : List GraphNodeRecord) × (items : Items) × (plan : List Fields) × (lookup run_id g
      ≡ some stored)
    × (get "plan" state ≡ some (arr items))
    × (dict_list items ≡ some plan)
    × (pick (nodes_by_id [] stored) plan ≡ some nodes)

pub found-Eq :
    {A : Type 0} (e : Error) (o : Option A) (r s : Repository) (a : A)
    → found_or_raise e o r ≡ (return a, s)
    → (o ≡ some a) × (r ≡ s)
found-Eq e none r s a h = absurd (ground (arith, h))
found-Eq e (some b) r s a h = (ground (arith, h), ap (λ z. z.1) h)

stored-Found :
    (run_id : String)
    → Ensures Anything (list_graph_nodes run_id) (λ stored g. lookup run_id g ≡ some stored)
unfolding list_graph_nodes
stored-Found run_id = Ensures-then _ _ (KeepsNodes-get_run run_id) (λ run. record {
  at = λ r a s p e.
      let (there, same) = found-Eq _ (lookup run_id r.graph_nodes) r s a e in
      subst (λ t. lookup run_id t.graph_nodes ≡ some a) same there;
})

items-Eq :
    (P : GraphNodes → Type 0) (v : Value)
    → Ensures P (as_items v) (λ items g. P g × (v ≡ arr items))
items-Eq P (arr items) = Ensures-pure items _ (λ g p. (p, refl))
items-Eq P null = record { at = λ r b s p e. absurd (ground (arith, e)) }
items-Eq P (bool b) = record { at = λ r b s p e. absurd (ground (arith, e)) }
items-Eq P (num n) = record { at = λ r b s p e. absurd (ground (arith, e)) }
items-Eq P (str t) = record { at = λ r b s p e. absurd (ground (arith, e)) }
items-Eq P (obj fs) = record { at = λ r b s p e. absurd (ground (arith, e)) }

plan-Eq :
    (P : GraphNodes → Type 0) (state : Fields)
    → Ensures P (plan_of state) (λ plan g.
      P g
      × ((items : Items) × (get "plan" state ≡ some (arr items)) × (dict_list items ≡ some plan)))
unfolding plan_of
plan-Eq P state = Ensures-found (key_error "plan") (get "plan" state) _ (λ v there.
    Ensures-bind (as_items v) _ (items-Eq P v) (λ items.
      Ensures-given (found_or_raise (type_error "plan") (dict_list items)) (λ same.
        Ensures-final (type_error "plan") (dict_list items)
          (λ plan e g p. (p, (items, there ∙ ap some same, e))))))

pub ordered_nodes-IsPlanned :
    (run_id : String) (state : Fields)
    → Ensures Anything (ordered_nodes run_id state) (λ nodes. IsPlanned run_id state nodes)
unfolding ordered_nodes
ordered_nodes-IsPlanned run_id state = Ensures-bind _ _ (stored-Found run_id) (λ stored.
    Ensures-bind _ _ (plan-Eq (λ g. lookup run_id g ≡ some stored) state) (λ plan.
      Ensures-final (pick_error plan) (pick (nodes_by_id [] stored) plan) (λ nodes e g p.
        let (items, there, listed) = p.1 in (stored, items, plan, p.0, there, listed, e))))

-- The plan of the result's state names at least one node of the repository, and all those that it
-- names are completed.
abbrev pub HasCompleted : (run_id : String) → OrchestrationResult → GraphNodes → Type 0
HasCompleted run_id answer g =
    (nodes : List GraphNodeRecord) × IsPlanned run_id answer.state nodes g
    × (nodes ≢ [])
    × All (λ n. n.status ≡ GraphNodeStatus.completed) nodes

All-of_test :
    (nodes : List GraphNodeRecord)
    → all_of (λ n. is_completed n.status) nodes ≡ true
    → All (λ n. n.status ≡ GraphNodeStatus.completed) nodes
All-of_test [] e = tt
All-of_test (n ∷ nodes) e =
    (is_completed-eq n.status (ground (arith, e)), All-of_test nodes (ground (arith, e)))

pub all_completed-All :
    (nodes : List GraphNodeRecord)
    → all_completed nodes ≡ true
    → (nodes ≢ []) × All (λ n. n.status ≡ GraphNodeStatus.completed) nodes
all_completed-All [] e = absurd (ground (arith, e))
all_completed-All (n ∷ nodes) e =
    (λ empty. absurd (ground (arith, empty)), All-of_test (n ∷ nodes) e)

abbrev pub IsHonest : (run_id : String) → OrchestrationResult → GraphNodes → Type 0
IsHonest run_id answer g = answer.status ≡ RunStatus.completed → HasCompleted run_id answer g
