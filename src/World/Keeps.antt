-- ===== src/World/Keeps.antt =====
-- Properties of the tables that an action keeps, whether it returns or fails, whatever the faults.
use masterfabric_backend.Prelude.{ℕ, Bool, true, false, String, List, if◌then◌else◌}
use masterfabric_backend.Errors.{Error, plain}
use masterfabric_backend.Exec.{
  Result, ok, err, pure, raise, lift, attempt, map_err, continue, ◌>>=◌,
}
use masterfabric_backend.World.{
  Env, World, Act, Fault, Payload, Event, advance, call, query, append_event, publish,
}
use masterfabric_backend.Iam.Model as IamModel
use masterfabric_backend.Llm.Model as LlmModel

abbrev pub Property : Env → Type 1
Property env = IamModel.Tables → LlmModel.Tables env.Float → Type 0

pub record Keeps (env : Env) (P : Property env) {A : Type 0} (m : Act env A) : Type 0 where
  pub at : (w : World env) → P w.iam w.llm → P (m w).1.iam (m w).1.llm

module _ {env : Env} {P : Property env} where
  module _ {A : Type 0} where
    pub Keeps-pure : (a : A) → Keeps env P (pure a)
    unfolding pure
    Keeps-pure a = record { at = λ w h. h }

    pub Keeps-raise : (e : Error) → Keeps env P (raise {A = A} e)
    unfolding raise
    Keeps-raise e = record { at = λ w h. h }

    pub Keeps-lift : (r : Result A) → Keeps env P (lift r)
    unfolding lift
    Keeps-lift r = record { at = λ w h. h }

    pub Keeps-attempt : {m : Act env A} → Keeps env P m → Keeps env P (attempt m)
    unfolding attempt
    Keeps-attempt k = record { at = k.at }

    pub Keeps-map_err :
        (f : Error → Error) {m : Act env A} → Keeps env P m → Keeps env P (map_err f m)
    unfolding map_err
    Keeps-map_err f k = record { at = k.at }

    pub Keeps-if :
        (b : Bool) {m n : Act env A}
        → Keeps env P m
        → Keeps env P n
        → Keeps env P (if b then m else n)
    Keeps-if true km kn = km
    Keeps-if false km kn = kn

    pub Keeps-call : (f : ℕ → A) → Keeps env P (call env f)
    unfolding call
    Keeps-call f = record { at = λ w h. h }

    pub Keeps-query :
        (q : ℕ → World env → Result A × World env)
        → ((n : ℕ) (w : World env) → P w.iam w.llm → P (q n w).1.iam (q n w).1.llm)
        → Keeps env P (query env q)
    unfolding query
    Keeps-query q k = record { at = λ w h. answered w h (env.fault w.step) }
      where
        answered :
            (w : World env)
            → P w.iam w.llm
            → (f : Fault)
            → (let u : Result A × World env = elim f [
              | Fault.healthy ↦ q w.step (advance env w)
              | Fault.refused ↦ (err (plain "connection refused"), advance env w)
              | Fault.lost ↦ (err (plain "connection lost"), (q w.step (advance env w)).1)
            ] in
                P u.1.iam u.1.llm)
        answered w h Fault.healthy = k w.step (advance env w) h
        answered w h Fault.refused = h
        answered w h Fault.lost = k w.step (advance env w) h

  pub Keeps-append_event : (e : Event env.Float) → Keeps env P (append_event env e)
  unfolding append_event
  Keeps-append_event e = record { at = λ w h. h }

  module _ {A B : Type 0} where
    keeps_continue :
        (r : Result A) (f : A → Act env B)
        → ((a : A) → Keeps env P (f a))
        → (w : World env) → P w.iam w.llm
        → P (continue r f w).1.iam (continue r f w).1.llm
    keeps_continue (ok a) f k w h = (k a).at w h
    keeps_continue (err e) f k w h = h

    pub Keeps-bind :
        (m : Act env A) (f : A → Act env B)
        → Keeps env P m
        → ((a : A) → Keeps env P (f a))
        → Keeps env P (m >>= f)
    unfolding ◌>>=◌
    Keeps-bind m f km kf = record { at = λ w h. keeps_continue (m w).0 f kf (m w).1 (km.at w h) }

pub ruleset keeps_rules = (
  Keeps-pure, Keeps-raise, Keeps-lift, Keeps-attempt, Keeps-map_err, Keeps-if, Keeps-call,
  Keeps-append_event, Keeps-bind,
)

module _ {env : Env} {P : Property env} where
  pub Keeps-publish :
      (kind topic source : String) (payload : List (String × Payload env.Float))
      → Keeps env P (publish env kind topic source payload)
  unfolding publish
  Keeps-publish kind topic source payload = search keeps_rules
