-- ===== src/Http/Routes/Refinement.antt =====
-- Each request does to the tables what one operation of the service does, or nothing.
use masterfabric_backend.Prelude.{
  Bool, true, false, not, ◌&&◌, ◌||◌, ◌≡◌, refl, sym, ap, ◌∙◌, Option, none, some, nat_eq, list_eq,
  take, if◌then◌else◌,
}
use masterfabric_backend.Prelude.Integers.{is_positive}
use masterfabric_backend.Errors.{Error}
use masterfabric_backend.Exec.{Result, ok, err, pure, lift, attempt, continue, ◌>>=◌, ◌>>◌}
use masterfabric_backend.World.{Env, World, Act}
use masterfabric_backend.World.Passive.{rows, IsPassive, passive_rules}
use masterfabric_backend.Service.{
  Operation, registering, logging_in, refreshing, logging_out, reading_me, listing_sessions,
  updating_me, changing_password, creating_session, getting_session, listing_events,
  recording_event, recording_score, reading_config, updating_config, perform,
}
use masterfabric_backend.Http.Pagination.{parse}
use masterfabric_backend.Http.Request.{
  Request, Context, Web, Decoding, malformed, invalid, decoded, decode_and_validate,
  user_id_from_ctx, session_id_from_url,
}
use masterfabric_backend.Http.Handlers.Identity.{
  register_handler, login_handler, refresh_handler, logout_handler, sessions_handler, me_handler,
  update_me_handler, change_password_handler,
}
use masterfabric_backend.Http.Handlers.Inference.{
  list_models_handler, create_session_handler, get_session_handler, record_event_handler,
  list_events_handler, record_score_handler,
}
use masterfabric_backend.Http.Handlers.Config.{
  get_config_handler, update_config_handler, live_handler, ready_handler, check_limits,
}
use masterfabric_backend.Http.Routes.{Route, handle}
use masterfabric_backend.Http.Routes.Passive.{ping-IsPassive}

abbrev pub given : {A B : Type 0} → Option A → (A → Option B) → Option B
given none f = none
given (some a) f = f a

abbrev pub valid : {A : Type 0} → Decoding A → Option A
valid (malformed e) = none
valid (invalid message e) = none
valid (decoded a) = some a

module _ {env : Env} (web : Web env) where
  -- The operation of the service that a request on a route asks for, if it asks for any.
  pub asked : Route → Context → Request → Option (Operation env)
  asked Route.live c r = none
  asked Route.ready c r = none
  asked Route.get_config c r = some reading_config
  asked Route.update_config c r = given (valid (web.config_body (take 4096 r.body))) (λ req.
      if is_positive req.limits.max_prompt_chars && is_positive req.limits.rate_per_min
      then some (updating_config req)
      else none)
  asked Route.register c r =
      given (valid (web.register_body r.body)) (λ req. some (registering req))
  asked Route.login c r = given (valid (web.login_body r.body)) (λ req. some (logging_in req))
  asked Route.refresh c r =
      given (valid (web.token_body r.body)) (λ req. some (refreshing req.refresh_token))
  asked Route.logout c r =
      given (valid (web.token_body r.body)) (λ req. some (logging_out req.refresh_token))
  asked Route.change_password c r = given c.user_id (λ user.
      given (valid (web.change_password_body r.body)) (λ req. some (changing_password user req)))
  asked Route.me c r = given c.user_id (λ user. some (reading_me user))
  asked Route.update_me c r =
      given c.user_id (λ user.
        given (valid (web.update_me_body r.body)) (λ req. some (updating_me user req.email)))
  asked Route.sessions c r = given c.user_id (λ user. some (listing_sessions user))
  asked Route.list_models c r = none
  asked Route.create_session c r = given c.user_id (λ user.
      given (valid (web.session_body r.body))
        (λ req. some (creating_session user req.model_id req.model_hash)))
  asked Route.get_session c r =
      given c.user_id (λ user. given (web.parse_uuid r.id) (λ id. some (getting_session user id)))
  asked Route.record_event c r = given c.user_id (λ user.
      given (web.parse_uuid r.id)
        (λ id. given (valid (web.event_body r.body)) (λ req. some (recording_event user id req))))
  asked Route.list_events c r = given c.user_id (λ user. given (web.parse_uuid r.id) (λ id.
      some (listing_events user id (parse r.page r.limit 20).page (parse r.page r.limit 20).limit)))
  asked Route.record_score c r = given c.user_id (λ user.
      given (web.parse_uuid r.id)
        (λ id. given (valid (web.score_body r.body)) (λ req. some (recording_score user id req))))

module _ {env : Env} where
  abbrev pub applied : Option (Operation env) → World env → World env
  applied none w = w
  applied (some op) w = (perform env op w).1

  -- An action that does to the rows what an operation does, or nothing.
  pub record Refines {A : Type 0} (o : Option (Operation env)) (m : Act env A) : Type 0 where
    pub at : (w : World env) → rows (m w).1 ≡ rows (applied o w)

  module _ {A B : Type 0} (f : A → Act env B) (g : A → Option (Operation env))
      (k : (a : A) → Refines (g a) (f a)) where
    decoded-Refines :
        (d : Decoding A) → Refines (given (valid d) g) (lift (decode_and_validate d) >>= f)
    unfolding ◌>>=◌ lift decode_and_validate
    decoded-Refines (malformed e) = record { at = λ w. refl }
    decoded-Refines (invalid message e) = record { at = λ w. refl }
    decoded-Refines (decoded a) = record { at = (k a).at }

  -- A value of the request that has to be there.
  optional-Refines :
      {A B : Type 0} (o : Option A) (e : Error) (f : A → Act env B) (g : A → Option (Operation env))
      → ((a : A) → Refines (g a) (f a))
      → Refines (given o g) (lift (elim o [ none ↦ err e | some a ↦ ok a ]) >>= f)
  unfolding ◌>>=◌ lift
  optional-Refines none e f g k = record { at = λ w. refl }
  optional-Refines (some a) e f g k = record { at = (k a).at }

  guarded-Refines :
      {A B : Type 0} (p q : Bool) (e : Error) (a : A) (f : A → Act env B) (op : Operation env)
      → Refines (some op) (f a)
      → Refines
          (if p && q then some op else none)
          (lift (if not p || not q then err e else ok a) >>= f)
  unfolding ◌>>=◌ lift
  guarded-Refines true true e a f op k = record { at = k.at }
  guarded-Refines true false e a f op k = record { at = λ w. refl }
  guarded-Refines false q e a f op k = record { at = λ w. refl }

  continue-pure :
      {A B : Type 0} (r : Result A) (f : A → B) (w : World env)
      → (continue r (λ a. pure (f a)) w).1 ≡ w
  unfolding pure
  continue-pure (ok a) f w = refl
  continue-pure (err e) f w = refl

  ignored :
      {A B : Type 0} (m : Act env A) (f : A → B) (w : World env)
      → ((m >>= λ a. pure (f a)) w).1 ≡ ((do attempt m; pure tt) w).1
  unfolding ◌>>=◌ attempt pure
  ignored m f w = continue-pure (m w).0 f (m w).1

  performed-Refines :
      {A B : Type 0} (op : Operation env) (m : Act env A) (f : A → B)
      → perform env op ≡ (do attempt m; pure tt)
      → Refines (some op) (m >>= λ a. pure (f a))
  performed-Refines op m f e = record {
    at = λ w. ap rows (ignored m f w) ∙ sym (ap (λ (n : Act env (Unit {0})). rows (n w).1) e);
  }

  passive-Refines : {A : Type 0} (m : Act env A) → IsPassive env m → Refines none m
  passive-Refines m k = record { at = k.at }

module _ {env : Env} (web : Web env) where
  pub handle-asked :
      (at : Route) (c : Context) (r : Request) → Refines (asked web at c r) (handle web at c r)
  unfolding asked handle user_id_from_ctx session_id_from_url register_handler login_handler
      refresh_handler logout_handler change_password_handler me_handler update_me_handler
      sessions_handler list_models_handler create_session_handler get_session_handler
      record_event_handler list_events_handler record_score_handler get_config_handler live_handler
      ready_handler perform update_config_handler check_limits
  handle-asked Route.live c r = passive-Refines _ (search passive_rules)
  handle-asked Route.ready c r = passive-Refines _ (search (passive_rules, ping-IsPassive))
  handle-asked Route.get_config c r = performed-Refines _ _ _ refl
  handle-asked Route.update_config c r =
      decoded-Refines _ _ (λ req. guarded-Refines _ _ _ _ _ _ (performed-Refines _ _ _ refl)) _
  handle-asked Route.register c r = decoded-Refines _ _ (λ req. performed-Refines _ _ _ refl) _
  handle-asked Route.login c r = decoded-Refines _ _ (λ req. performed-Refines _ _ _ refl) _
  handle-asked Route.refresh c r = decoded-Refines _ _ (λ req. performed-Refines _ _ _ refl) _
  handle-asked Route.logout c r = decoded-Refines _ _ (λ req. performed-Refines _ _ _ refl) _
  handle-asked Route.change_password c r =
      optional-Refines _ _ _ _ (λ user. decoded-Refines _ _ (λ req. performed-Refines _ _ _ refl) _)
  handle-asked Route.me c r = optional-Refines _ _ _ _ (λ user. performed-Refines _ _ _ refl)
  handle-asked Route.update_me c r =
      optional-Refines _ _ _ _ (λ user. decoded-Refines _ _ (λ req. performed-Refines _ _ _ refl) _)
  handle-asked Route.sessions c r = optional-Refines _ _ _ _ (λ user. performed-Refines _ _ _ refl)
  handle-asked Route.list_models c r = passive-Refines _ (search passive_rules)
  handle-asked Route.create_session c r =
      optional-Refines _ _ _ _ (λ user. decoded-Refines _ _ (λ req. performed-Refines _ _ _ refl) _)
  handle-asked Route.get_session c r =
      optional-Refines _ _ _ _
        (λ user. optional-Refines _ _ _ _ (λ id. performed-Refines _ _ _ refl))
  handle-asked Route.record_event c r = optional-Refines _ _ _ _ (λ user.
      optional-Refines _ _ _ _ (λ id. decoded-Refines _ _ (λ req. performed-Refines _ _ _ refl) _))
  handle-asked Route.list_events c r =
      optional-Refines _ _ _ _
        (λ user. optional-Refines _ _ _ _ (λ id. performed-Refines _ _ _ refl))
  handle-asked Route.record_score c r = optional-Refines _ _ _ _ (λ user.
      optional-Refines _ _ _ _ (λ id. decoded-Refines _ _ (λ req. performed-Refines _ _ _ refl) _))
