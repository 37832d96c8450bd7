-- ===== src/Iam/Model.antt =====
-- The rows of the identity tables: internal/domain/iam/model/*.go, with the columns that the
-- migrations declare. A uuid and an instant (in nanoseconds) are numbers.
use masterfabric_backend.Prelude.{
  ℕ, ◌-◌, Bool, true, false, String, Option, none, some, List, ltb, if◌then◌else◌,
}
use masterfabric_backend.Prelude.Text.{Text}

pub record User : Type 0 where
  pub id : ℕ
  pub email : Text
  pub password_hash : Text
  pub created_at : ℕ

-- A row of `roles`; `permissions` is its JSON column decoded, `none` if that is no list of texts.
pub record RoleRow : Type 0 where
  pub id : ℕ
  pub name : String
  pub permissions : Option (List Text)

pub record RefreshToken : Type 0 where
  pub id : ℕ
  pub user_id : ℕ
  pub token_hash : Text
  pub expires_at : ℕ
  pub created_at : ℕ
  pub last_seen_at : ℕ
  pub revoked_at : Option ℕ

pub record Tables : Type 0 where
  pub users : List User
  pub roles : List RoleRow
  pub user_roles : List (ℕ × ℕ)
  pub tokens : List RefreshToken

abbrev pub is_some {ℓ} : {A : Type ℓ} → Option A → Bool
is_some none = false
is_some (some a) = true

-- `RefreshToken.IsRevoked`, `IsExpired` and `RemainingLifetime`.
unfoldable pub is_revoked : RefreshToken → Bool
is_revoked t = is_some t.revoked_at

unfoldable pub is_expired : RefreshToken → ℕ → Bool
is_expired t now = ltb t.expires_at now

unfoldable pub remaining_lifetime : RefreshToken → ℕ → ℕ
remaining_lifetime t now = if ltb t.expires_at now then 0 else t.expires_at - now
