-- ===== src/Config/Model.antt =====
-- internal/domain/config/model/config.go.
use masterfabric_backend.Prelude.{Bool}
use masterfabric_backend.Prelude.Integers.{ℤ}
use masterfabric_backend.Prelude.Text.{Text}

pub record WebLlmConfig : Type 0 where
  pub model_id : Text
  pub model_url : Text
  pub estimated_bytes : ℤ

pub record Features : Type 0 where
  pub scoring : Bool
  pub monitoring : Bool

pub record Limits : Type 0 where
  pub max_prompt_chars : ℤ
  pub rate_per_min : ℤ

pub record AppConfig : Type 0 where
  pub web_llm : WebLlmConfig
  pub features : Features
  pub limits : Limits
