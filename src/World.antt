-- ===== src/World.antt =====
-- What the process stands on. `Env` is what the program does not implement: clocks, random
-- sources, bcrypt, SHA-256, the signing of tokens, the Redis server, and the faults of the two
-- servers. It answers the n-th call by a function of n, so a theorem over every `Env` is one
-- over every course of time, chance and failure. `World` is the state of the tables and of Redis,
-- with what has been published and counted.
pub mod Keeps
pub mod Passive
pub mod Inversion
use masterfabric_backend.Prelude.{ℕ, suc, Bool, String, Option, none, some, List, [], ◌∷◌, ◌++◌}
use masterfabric_backend.Prelude.Text.{Text}
use masterfabric_backend.Prelude.Integers.{ℤ}
use masterfabric_backend.Config.Model.{AppConfig}
use masterfabric_backend.Errors.{Error, plain}
use masterfabric_backend.Exec.{Result, ok, err, Exec, pure, ◌>>=◌}
use masterfabric_backend.Iam.Model as IamModel
use masterfabric_backend.Llm.Model as LlmModel

-- A statement is answered, or refused before it acts, or acts and its answer is lost.
pub data Fault : Type 0 where
  healthy refused lost : Fault

-- internal/infrastructure/auth/jwt_service.go: `AccessClaims`.
pub record AccessClaims : Type 0 where
  pub user_id : ℕ
  pub roles : List String
  pub issued_at : ℕ
  pub expires_at : ℕ
  pub not_before : ℕ
  pub issuer : String
  pub subject : ℕ
  pub id : ℕ

pub record Env : Type 1 where
  -- `time.Now`, `now()` in SQL, and the clock of Redis
  pub now : ℕ → ℕ
  -- `uuid.New`, `gen_random_uuid()`
  pub fresh : ℕ → ℕ
  -- `rand.Read` of 32 bytes
  pub random : ℕ → Option (List ℕ)
  pub sha256 : Text → List ℕ
  -- `bcrypt.GenerateFromPassword` with its salt, `bcrypt.CompareHashAndPassword`
  pub bcrypt_hash : ℕ → Text → Option Text
  pub bcrypt_matches : Text → Text → Bool
  -- `Token.SignedString` with the service's secret
  pub sign : AccessClaims → Option Text
  -- `unicode.ToLower` above ASCII
  pub lower_wide : ℕ → ℕ
  -- what happens to the n-th call, if it is a statement or a Redis command
  pub fault : ℕ → Fault
  -- `rdb != nil`, and the commands `SET key 1 PX ttl` and `EXISTS key`, at an instant
  pub has_redis : Bool
  pub Redis : Type 0
  pub redis_set : Redis → String → Text → ℕ → ℕ → Redis
  pub redis_exists : Redis → String → Text → ℕ → Bool
  -- `INCR`, `PEXPIRE key ms`, `PTTL`, at an instant
  pub redis_incr : Redis → Text → ℕ → ℕ × Redis
  pub redis_pexpire : Redis → Text → ℕ → ℕ → Redis
  pub redis_pttl : Redis → Text → ℕ → ℤ
  -- `math.floor((pttl / 1000) + (now / 1000))` in the numbers of Redis's scripts
  pub lua_seconds : ℤ → ℕ → ℕ
  -- `fmt.Sprintf("rate limit exceeded (max %d per %s)", …)`, the window in milliseconds
  pub rate_message : ℕ → ℕ → String
  -- the JSON of a configuration, as the column gives it back
  pub encode_config : AppConfig → Text
  pub decode_config : Text → Option AppConfig
  -- float64
  pub Float : Type 0
  pub zero_float : Float
  -- `accessTTL` and `refreshTTL`
  pub access_ttl : ℕ
  pub refresh_ttl : ℕ

-- A value of an event's payload.
pub data Payload (F : Type 0) : Type 0 where
  uuid number : ℕ → Payload F
  text : Text → Payload F
  flag : Bool → Payload F
  float : F → Payload F

-- internal/shared/events/bus.go: `Event`.
pub record Event (F : Type 0) : Type 0 where
  pub id : ℕ
  pub kind : String
  pub topic : String
  pub source : String
  pub timestamp : ℕ
  pub payload : List (String × Payload F)

pub record World (env : Env) : Type 0 where
  pub step : ℕ
  pub iam : IamModel.Tables
  pub llm : LlmModel.Tables env.Float
  -- the row 'app' of `app_config`
  pub app_config : Option Text
  pub redis : env.Redis
  pub published : List (Event env.Float)
  pub metrics : List (LlmModel.Metric env.Float)

module _ (env : Env) where
  abbrev pub Act : Type 0 → Type 0
  Act A = Exec (World env) A

  abbrev pub advance : World env → World env
  advance w = record w { step = suc w.step }

  -- A call that only reads the environment.
  unfoldable pub call : {A : Type 0} → (ℕ → A) → Act A
  call f w = (ok (f w.step), advance w)

  -- A statement sent to a server; its effect is given at the number of the call.
  unfoldable pub query : {A : Type 0} → (ℕ → World env → Result A × World env) → Act A
  query q w = elim (env.fault w.step) [
    | Fault.healthy ↦ q w.step (advance w)
    | Fault.refused ↦ (err (plain "connection refused"), advance w)
    | Fault.lost ↦ (err (plain "connection lost"), (q w.step (advance w)).1)
  ]

  unfoldable pub append_event : Event env.Float → Act (Unit {0})
  append_event e w = (ok tt, record w { published = w.published ++ e ∷ [] })

  -- `eventBus.Publish(ctx, events.NewEvent(…))`, its error ignored as the use cases do.
  unfoldable pub publish :
      String → String → String → List (String × Payload env.Float) → Act (Unit {0})
  publish kind topic source payload = do
    id ← call env.fresh
    at ← call env.now
    append_event (record {
      id = id;
      kind = kind;
      topic = topic;
      source = source;
      timestamp = at;
      payload = payload;
    })
