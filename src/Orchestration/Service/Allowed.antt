-- ===== src/Orchestration/Service/Allowed.antt =====
-- orchestration/service.py: the tools of a node whose agent runs.
use autonomous_enterprise_ai.Base.{
  ◌≡◌, refl, sym, ◌∙◌, ap, subst, String, Bool, true, false, Result, return, raise, Option, none,
  some, List, [], ◌∷◌, All, any_of, arith, pure, ◌>>=◌, >>=-eq-return, if◌then◌else◌,
}
use autonomous_enterprise_ai.Json.{Value, Fields, null, bool, num, str, arr, obj, get}
use autonomous_enterprise_ai.Platform.{Platform}
use autonomous_enterprise_ai.Agents.{AgentOutput}
use autonomous_enterprise_ai.Runs.Errors.{Error, key_error, value_error}
use autonomous_enterprise_ai.Runs.Models.{GraphNodeRecord, RunRecord, ArtifactRecord}
use autonomous_enterprise_ai.Runs.Repository.{Repository, Repo, found_or_raise, get_run}
use autonomous_enterprise_ai.Security.Policy.{
  PolicyEvaluationContext, ToolPolicyDecision, ToolPolicyDecisionStatus, evaluate,
}
use autonomous_enterprise_ai.Orchestration.Service.{
  OrchestratorService, as_dict, value_at, dict_at, known_artifacts,
}
use autonomous_enterprise_ai.Orchestration.Service.Decisions.{
  summarize_tool_input, is_block, is_retry, asks_approval, security_output,
}
use autonomous_enterprise_ai.Orchestration.Service.Authorization.{
  record_audits, task_of, is_approval, no_tools, evaluate_tools, authorize_tools,
  authorize_node_tools,
}
use autonomous_enterprise_ai.Orchestration.Service.Context.{
  policy_context_for_tool, tool_context, find_artifacts, with_dataset,
}
use autonomous_enterprise_ai.Orchestration.Service.Reading.{
  IsReading-found, IsReading-dict_at, IsReading-task_of, IsReading-context, IsReading-return,
}

-- The context of the node itself, with this approval.
abbrev pub IsOf : GraphNodeRecord → Bool → PolicyEvaluationContext → Type 0
IsOf node approved context =
    (context.approved ≡ approved)
    × (context.agent_type ≡ some node.agent_type)
    × (context.node_id ≡ some node.ident)
    × (context.run_id ≡ some node.run_id)

-- The policy allowed the tool for the node, in the repository `r`: for the task that the plan gives
-- the node, in the context of the artifacts that the state and the run have, and as approved just
-- where the state says "approved" for the node. Rules read the context, and the permission reads
-- the argument.
module _ (platform : Platform) (service : OrchestratorService) (node : GraphNodeRecord)
    (state : Fields) (r : Repository) where
  abbrev pub IsAllowed : String → Type 0
  IsAllowed tool =
      (approvals : Fields) × (task : String) × (context : PolicyEvaluationContext)
      × (decision : ToolPolicyDecision) × (get "approvals" state ≡ some (obj approvals))
      × (task_of platform state node.ident r ≡ (return task, r))
      × (policy_context_for_tool platform node state (summarize_tool_input node task)
            (is_approval platform (get node.ident approvals)) r
          ≡ (return context, r))
      × IsOf node (is_approval platform (get node.ident approvals)) context
      × (evaluate platform service.tool_permissions tool (summarize_tool_input node task)
            (is_approval platform (get node.ident approvals)) (some context)
          ≡ some decision)
      × (decision.decision ≡ ToolPolicyDecisionStatus.allow)

abbrev IsAllow : ToolPolicyDecision → Type 0
IsAllow d = d.decision ≡ ToolPolicyDecisionStatus.allow

-- A list without a decision that blocks, asks or retries.
All-IsAllow :
    (ds : List ToolPolicyDecision)
    → any_of is_block ds ≡ false
    → any_of asks_approval ds ≡ false
    → any_of is_retry ds ≡ false
    → All IsAllow ds
All-IsAllow [] b a r = tt
All-IsAllow (d ∷ ds) b a r = (
  one d.decision (ground (arith, b)) (ground (arith, a)) (ground (arith, r)),
  All-IsAllow ds (ground (arith, b)) (ground (arith, a)) (ground (arith, r)),
)
  where
    one :
        (status : ToolPolicyDecisionStatus)
        → elim status [ ToolPolicyDecisionStatus.block ↦ true | _ ↦ false ] ≡ false
        → elim status [
          | ToolPolicyDecisionStatus.approval_required ↦ true
          | ToolPolicyDecisionStatus.escalate ↦ true
          | _ ↦ false
        ]
          ≡ false
        → elim status [ ToolPolicyDecisionStatus.retry ↦ true | _ ↦ false ] ≡ false
        → status ≡ ToolPolicyDecisionStatus.allow
    one ToolPolicyDecisionStatus.allow x y z = refl
    one ToolPolicyDecisionStatus.approval_required x y z = cc
    one ToolPolicyDecisionStatus.block x y z = cc
    one ToolPolicyDecisionStatus.retry x y z = cc
    one ToolPolicyDecisionStatus.escalate x y z = cc

security_output-none : (ds : List ToolPolicyDecision) → security_output ds ≡ none → All IsAllow ds
unfolding security_output
security_output-none ds e =
    All-IsAllow ds (ground (arith, e)) (ground (arith, e)) (ground (arith, e))

returned_eq :
    {A : Type 0} {a b : A} {r s : Repository}
    → ◌≡◌ {A = Result Error A × Repository} (return a, r) (return b, s)
    → a ≡ b
returned_eq {a = a} e = ap (λ p. elim p.0 [ return x ↦ x | raise x ↦ a ]) e

found-eq :
    {A : Type 0} (e : Error) (o : Option A) (r s : Repository) (a : A)
    → found_or_raise e o r ≡ (return a, s)
    → o ≡ some a
found-eq e none r s a h = absurd (ground (arith, h))
found-eq e (some b) r s a h = ground (arith, h)

as_dict-eq :
    (v : Value) (fs : Fields) (r s : Repository) → as_dict v r ≡ (return fs, s) → v ≡ obj fs
as_dict-eq (obj fs) gs r s h = ground (arith, h)
as_dict-eq null gs r s h = absurd (ground (arith, h))
as_dict-eq (bool b) gs r s h = absurd (ground (arith, h))
as_dict-eq (num n) gs r s h = absurd (ground (arith, h))
as_dict-eq (str t) gs r s h = absurd (ground (arith, h))
as_dict-eq (arr xs) gs r s h = absurd (ground (arith, h))

dict_at-eq :
    (key : String) (state fs : Fields) (r s : Repository)
    → dict_at key state r ≡ (return fs, s)
    → get key state ≡ some (obj fs)
unfolding dict_at
dict_at-eq key state fs r s h =
    let (v, t, e, g) = >>=-eq-return (value_at key state) as_dict r h in
    found-eq (key_error key) (get key state) r t v e ∙ ap some (as_dict-eq v fs t s g)

module _ (platform : Platform) (node : GraphNodeRecord) (state : Fields) where
  -- A context that was returned is one of the node.
  context-IsOf :
      (summary : String) (approved : Bool) (context : PolicyEvaluationContext) (r s : Repository)
      → policy_context_for_tool platform node state summary approved r ≡ (return context, s)
      → IsOf node approved context
  unfolding policy_context_for_tool tool_context
  context-IsOf summary approved context r s h =
      let with_artifacts : List ArtifactRecord → Repo PolicyEvaluationContext =
        λ artifacts. pure (tool_context platform node summary approved artifacts) in
      let with_run : List String → RunRecord → Repo PolicyEvaluationContext = λ known run.
        find_artifacts node.run_id (with_dataset run.dataset_artifact_id known)
        >>= with_artifacts in
      let (known, t, e1, h1) =
        >>=-eq-return (known_artifacts state) (λ known. get_run node.run_id >>= with_run known) r
          h in
      let (run, u, e2, h2) = >>=-eq-return (get_run node.run_id) (with_run known) t h1 in
      let (artifacts, v, e3, h3) =
        >>=-eq-return (find_artifacts node.run_id (with_dataset run.dataset_artifact_id known))
          with_artifacts u h2 in
      let made : tool_context platform node summary approved artifacts ≡ context = returned_eq h3 in
      subst (IsOf node approved) made (refl, refl, refl, refl)

module _ (platform : Platform) (service : OrchestratorService) (node : GraphNodeRecord)
    (state : Fields) (approvals : Fields) (task : String) (r : Repository)
    (there : get "approvals" state ≡ some (obj approvals))
    (planned : task_of platform state node.ident r ≡ (return task, r)) where
  evaluate_tools-IsAllowed :
      (tools : List String) (ds : List ToolPolicyDecision) (s : Repository)
      → evaluate_tools platform service node state
          (summarize_tool_input node task)
          (is_approval platform (get node.ident approvals))
          tools
          r
        ≡ (return ds, s)
      → All IsAllow ds
      → All (IsAllowed platform service node state r) tools
  unfolding evaluate_tools
  evaluate_tools-IsAllowed [] ds s h all = tt
  evaluate_tools-IsAllowed (tool ∷ tools) ds s h all =
      let summary = summarize_tool_input node task in
      let approved = is_approval platform (get node.ident approvals) in
      let others : Repo (List ToolPolicyDecision) =
        evaluate_tools platform service node state summary approved tools in
      let with_decision : ToolPolicyDecision → Repo (List ToolPolicyDecision) =
        λ d. others >>= (λ rest. pure (d ∷ rest)) in
      let read : Repo PolicyEvaluationContext =
        policy_context_for_tool platform node state summary approved in
      let allow : PolicyEvaluationContext → Option ToolPolicyDecision = λ context.
        evaluate platform service.tool_permissions tool summary approved (some context) in
      let decide : PolicyEvaluationContext → Repo ToolPolicyDecision =
        λ context. found_or_raise (value_error "input_summary") (allow context) in
      let (context, t, e1, h1) =
        >>=-eq-return read (λ context. decide context >>= with_decision) r h in
      let (d, u, e2, h2) = >>=-eq-return (decide context) with_decision t h1 in
      let (rest, v, e3, h3) = >>=-eq-return others (λ rest. pure (d ∷ rest)) u h2 in
      let same : d ∷ rest ≡ ds = ground (arith, h3) in
      let (allowed, all_rest) = subst (All IsAllow) (sym same) all in
      let to_t =
        IsReading-return read (IsReading-context platform node state summary approved) e1 in
      let to_u = IsReading-return (decide context) (IsReading-found _ (allow context)) e2 in
      (
        (
          approvals,
          task,
          context,
          d,
          there,
          planned,
          subst (λ w. read r ≡ (return context, w)) (sym to_t) e1,
          context-IsOf platform node state summary approved context r t e1,
          found-eq (value_error "input_summary") (allow context) t u d e2,
          allowed,
        ),
        evaluate_tools-IsAllowed tools rest v
            (subst (λ w. others w ≡ (return rest, v)) (sym (to_t ∙ to_u)) e3) all_rest,
      )

module _ (platform : Platform) (service : OrchestratorService) (node : GraphNodeRecord)
    (state : Fields) where
  authorize_tools-IsAllowed :
      (tools : List String) (r s : Repository)
      → authorize_tools platform service node state tools r ≡ (return none, s)
      → All (IsAllowed platform service node state r) tools
  unfolding authorize_tools
  authorize_tools-IsAllowed tools r s h =
      let decide : Fields → String → Repo (List ToolPolicyDecision) = λ approvals task.
        evaluate_tools platform service node state (summarize_tool_input node task)
          (is_approval platform (get node.ident approvals)) tools in
      let finish : List ToolPolicyDecision → Repo (Option AgentOutput) =
        λ ds. record_audits platform node ds >>= (λ done. pure (security_output ds)) in
      let planned : Repo String = task_of platform state node.ident in
      let (approvals, t, e1, h1) =
        >>=-eq-return (dict_at "approvals" state)
          (λ approvals. planned >>= (λ task. decide approvals task >>= finish)) r h in
      let (task, u, e2, h2) =
        >>=-eq-return planned (λ task. decide approvals task >>= finish) t h1 in
      let (ds, v, e3, h3) = >>=-eq-return (decide approvals task) finish u h2 in
      let (done, w, e4, h4) =
        >>=-eq-return (record_audits platform node ds) (λ done. pure (security_output ds)) v h3 in
      let to_t =
        IsReading-return (dict_at "approvals" state) (IsReading-dict_at "approvals" state) e1 in
      let to_u = IsReading-return planned (IsReading-task_of platform state node.ident) e2 in
      evaluate_tools-IsAllowed platform service node state approvals task r
        (dict_at-eq "approvals" state approvals r t e1)
        (subst (λ x. planned r ≡ (return task, x)) (sym (to_t ∙ to_u))
          (subst (λ x. planned x ≡ (return task, u)) (sym to_t) e2))
        tools ds v (subst (λ x. decide approvals task x ≡ (return ds, v)) (sym (to_t ∙ to_u)) e3)
        (security_output-none ds (ground (arith, h4)))

  -- Where the authorization of a node lets its agent run, the policy allowed every tool that the
  -- node requires: for the task that the plan has for the node, in the context that the repository
  -- gives at that time, which is that of the node's agent, node and run, and as approved, in the
  -- context too, just where the state has the approval "approved" for the node.
  pub authorize-IsAllowed :
      (r s : Repository)
      → authorize_node_tools platform service node state r ≡ (return none, s)
      → All (IsAllowed platform service node state r) node.required_tools
  unfolding authorize_node_tools
  authorize-IsAllowed r s h = go node.required_tools h
    where
      go :
          (tools : List String)
          → (if no_tools platform tools
                then pure none
                else authorize_tools platform service node state tools)
              r
            ≡ (return none, s)
          → All (IsAllowed platform service node state r) tools
      go [] e = tt
      go (tool ∷ tools) e = authorize_tools-IsAllowed (tool ∷ tools) r s e
