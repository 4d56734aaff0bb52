-- ===== src/Agents.antt =====
-- agents/base.py: what an agent is given and what it answers.
use autonomous_enterprise_ai.Base.{String, List}
use autonomous_enterprise_ai.Json.{Fields}

pub record AgentInput : Type 0 where
  pub run_id : String
  pub node_id : String
  pub task : String
  pub context : Fields
  pub artifacts : List String
  pub approvals : List String

pub record AgentOutput : Type 0 where
  pub status : String
  pub summary : String
  pub artifacts : List String
  pub events : List Fields
  pub metrics : Fields
  pub errors : List String
