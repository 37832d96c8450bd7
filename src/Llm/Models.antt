-- ===== src/Llm/Models.antt =====
-- internal/application/llm/usecase/list_models.go.
use masterfabric_backend.Prelude.{ℕ, Bool, true, false, List, [], ◌∷◌}
use masterfabric_backend.Prelude.Text.{Text, codes}

-- `ModelManifest`, and `ModelDTO` with the same fields.
pub record ModelManifest : Type 0 where
  pub id : Text
  pub estimated_bytes : ℕ
  pub recommended : Bool

pub record ModelDto : Type 0 where
  pub model_id : Text
  pub estimated_bytes : ℕ
  pub recommended : Bool

abbrev pub allowed_models : List ModelManifest
allowed_models =
    record {
      id = codes "gemma-2-2b-it-q4f32_1-MLC";
      estimated_bytes = 2508000000;
      recommended = true;
    }
    ∷ record {
      id = codes "gemma-2-2b-it-q4f16_1-MLC";
      estimated_bytes = 2700000000;
      recommended = false;
    }
    ∷ []

unfoldable pub model_dtos : List ModelManifest → List ModelDto
model_dtos [] = []
model_dtos (m ∷ models) =
    record { model_id = m.id; estimated_bytes = m.estimated_bytes; recommended = m.recommended }
    ∷ model_dtos models

unfoldable pub list_models : List ModelDto
list_models = model_dtos allowed_models
