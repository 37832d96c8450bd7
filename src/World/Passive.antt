-- ===== src/World/Passive.antt =====
-- Actions that leave the rows of every table as they are, whether they return or fail.
use masterfabric_backend.Prelude.{ℕ, Bool, true, false, ◌≡◌, refl, ◌∙◌, Option, if◌then◌else◌}
use masterfabric_backend.Prelude.Text.{Text}
use masterfabric_backend.Errors.{plain}
use masterfabric_backend.Exec.{Result, ok, err, pure, lift, attempt, continue, ◌>>=◌}
use masterfabric_backend.World.{Env, World, Act, Fault, call, query, advance}
use masterfabric_backend.Iam.Model as IamModel
use masterfabric_backend.Llm.Model as LlmModel

abbrev pub Rows : Env → Type 0
Rows env = IamModel.Tables × LlmModel.Tables env.Float × Option Text

-- What the database holds.
abbrev pub rows : {env : Env} → World env → Rows env
rows w = (w.iam, w.llm, w.app_config)

pub record IsPassive (env : Env) {A : Type 0} (m : Act env A) : Type 0 where
  pub at : (w : World env) → rows (m w).1 ≡ rows w

module _ {env : Env} where
  module _ {A : Type 0} where
    pub pure-IsPassive : (a : A) → IsPassive env (pure a)
    unfolding pure
    pure-IsPassive a = record { at = λ w. refl }

    pub lift-IsPassive : (r : Result A) → IsPassive env (lift r)
    unfolding lift
    lift-IsPassive r = record { at = λ w. refl }

    pub attempt-IsPassive : {m : Act env A} → IsPassive env m → IsPassive env (attempt m)
    unfolding attempt
    attempt-IsPassive k = record { at = k.at }

    pub if-IsPassive :
        (b : Bool) {m n : Act env A}
        → IsPassive env m
        → IsPassive env n
        → IsPassive env (if b then m else n)
    if-IsPassive true km kn = km
    if-IsPassive false km kn = kn

    pub call-IsPassive : (f : ℕ → A) → IsPassive env (call env f)
    unfolding call
    call-IsPassive f = record { at = λ w. refl }

    pub query-IsPassive :
        (q : ℕ → World env → Result A × World env)
        → ((n : ℕ) (w : World env) → rows (q n w).1 ≡ rows w)
        → IsPassive env (query env q)
    unfolding query
    query-IsPassive q k = record { at = λ w. answered w (env.fault w.step) }
      where
        answered :
            (w : World env) (f : Fault)
            → (let u : Result A × World env = elim f [
              | Fault.healthy ↦ q w.step (advance env w)
              | Fault.refused ↦ (err (plain "connection refused"), advance env w)
              | Fault.lost ↦ (err (plain "connection lost"), (q w.step (advance env w)).1)
            ] in
                rows u.1 ≡ rows w)
        answered w Fault.healthy = k w.step (advance env w)
        answered w Fault.refused = refl
        answered w Fault.lost = k w.step (advance env w)

  module _ {A B : Type 0} where
    continue-IsPassive :
        (r : Result A) (f : A → Act env B)
        → ((a : A) → IsPassive env (f a))
        → (w : World env) → rows (continue r f w).1 ≡ rows w
    continue-IsPassive (ok a) f k w = (k a).at w
    continue-IsPassive (err e) f k w = refl

    pub bind-IsPassive :
        (m : Act env A) (f : A → Act env B)
        → IsPassive env m
        → ((a : A) → IsPassive env (f a))
        → IsPassive env (m >>= f)
    unfolding ◌>>=◌
    bind-IsPassive m f km kf = record {
      at = λ w. continue-IsPassive (m w).0 f kf (m w).1 ∙ km.at w;
    }

pub ruleset passive_rules = (
  pure-IsPassive, lift-IsPassive, attempt-IsPassive, if-IsPassive, call-IsPassive, bind-IsPassive,
)
