-- ===== src/Iam/Access.antt =====
-- Tokens made here: `generateOpaqueToken` and `hashToken` of
-- internal/application/iam/usecase/token_helpers.go, and `GenerateAccess` of
-- internal/infrastructure/auth/jwt_service.go.
use masterfabric_backend.Prelude.{
  ℕ, ◌+◌, ◌-◌, ◌/◌, ◌%◌, String, Option, none, some, List, [], ◌∷◌, ltb, if◌then◌else◌,
}
use masterfabric_backend.Prelude.Text.{Text}
use masterfabric_backend.Errors.{Error, plain, wrap}
use masterfabric_backend.Exec.{Result, ok, err, pure, lift, ◌>>=◌}
use masterfabric_backend.Iam.Model.{RefreshToken}
use masterfabric_backend.World.{Env, Act, AccessClaims, call}

unfoldable pub hex_digit : ℕ → ℕ
hex_digit d = if ltb d 10 then b'0' + d else b'a' + d - 10

-- `hex.EncodeToString`.
unfoldable pub hex : List ℕ → Text
hex [] = []
hex (b ∷ bytes) = hex_digit (b / 16) ∷ hex_digit (b % 16) ∷ hex bytes

abbrev pub or_error : {A : Type 0} → Error → Option A → Result A
or_error e none = err e
or_error e (some a) = ok a

abbrev pub nanoseconds : ℕ
nanoseconds = 1000000000

module _ (env : Env) where
  unfoldable pub hash_token : Text → Text
  hash_token raw = hex (env.sha256 raw)

  unfoldable pub generate_opaque_token : Act env Text
  generate_opaque_token = do
    bytes ← call env env.random
    b ← lift (or_error (wrap "read random" (plain "entropy")) bytes)
    pure (hex b)

  -- The signed token and its lifetime in seconds. The claims have their instants as the code hands
  -- them to the token library, which cuts them to seconds.
  unfoldable pub generate_access : ℕ → List String → Act env (Text × ℕ)
  generate_access user_id roles = do
    now ← call env env.now
    id ← call env env.fresh
    let claims : AccessClaims = record {
      user_id = user_id;
      roles = roles;
      issued_at = now;
      expires_at = now + env.access_ttl;
      not_before = now;
      issuer = "masterfabric_backend";
      subject = user_id;
      id = id;
    }
    signed ← lift (or_error (wrap "sign access token" (plain "signing")) (env.sign claims))
    pure (signed, env.access_ttl / nanoseconds)

  -- The row of a new refresh token, as login.go and refresh.go fill it in.
  abbrev pub refresh_row : ℕ → ℕ → Text → ℕ → RefreshToken
  refresh_row id user_id raw now = record {
    id = id;
    user_id = user_id;
    token_hash = hash_token raw;
    expires_at = now + env.refresh_ttl;
    created_at = now;
    last_seen_at = now;
    revoked_at = none;
  }
