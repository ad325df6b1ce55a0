-- ===== src/Resolver/Setting.antt =====
-- What a run of core/resolver.py is given, what it changes and what it returns.
use resolver_ai.Prelude.{ℕ, Bool, Option, List, Text}
use resolver_ai.Domain.{PaymentState, ActionType, DecisionType}
use resolver_ai.Schemas.{Mac}
use resolver_ai.Provider.{Provider, Outside, Mode}
use resolver_ai.Detective.{AiConfig, AiProvider, LlmReply}
use resolver_ai.Reconciliation.{Status}
use resolver_ai.Store.{Db}

-- The configuration, the services and the fresh values of one run.
pub record Env : Type 0 where
  pub mode : Mode
  pub provider : Provider
  pub mac : Mac
  pub secret : Text
  pub ai : AiConfig
  pub llm : AiProvider → Option LlmReply
  pub lucky : Text → Bool
  pub verify_hex : Text
  pub execute_hex : Text
  pub issue_time : ℕ
  pub execute_time : ℕ
  pub update_time : ℕ
  pub decision_id : ℕ
  pub command_id : ℕ
  pub case_id : ℕ
  pub redis_lock : Option Bool
  pub deleted_in_redis : Bool

pub record World : Type 0 where
  pub db : Db
  pub outside : Outside
  pub locks : List ℕ

pub data Response : Type 0 where
  skipped_locked not_found error : Response
  skipped_terminal : PaymentState → Response
  done : PaymentState → DecisionType → ActionType → Status → Response
