-- ===== src/Contracts.antt =====
-- contracts/llm_provider.py: requests to a model and its responses. The fields that no modelled code
-- reads (`tools`, `tool_calls`, `metadata`) are left out; `temperature` and `top_p` are in thousandths.
use hookclose.Prelude.{ℕ, String, Option, List}

pub data Role : Type 0 where
  system user assistant tool : Role

pub record LlmMessage : Type 0 where
  pub role : Role
  pub content : String

pub record LlmRequest : Type 0 where
  pub model : String
  pub messages : List LlmMessage
  pub max_tokens : Option ℕ
  pub temperature : Option ℕ
  pub top_p : Option ℕ
  pub stop : Option (List String)
  pub response_format : Option String

pub record LlmUsage : Type 0 where
  pub prompt_tokens : ℕ
  pub completion_tokens : ℕ
  pub total_tokens : ℕ

pub record LlmResponse : Type 0 where
  pub model : String
  pub content : String
  pub finish_reason : String
  pub usage : LlmUsage
