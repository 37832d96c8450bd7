-- ===== src/Service/Race/Sequential.antt =====
-- The stages, moved one after another with nothing in between, are `refresh`.
use masterfabric_backend.Prelude.{List, ℕ, zero, suc, ◌≡◌, refl, ◌∙◌, sym, ap}
use masterfabric_backend.Prelude.Text.{Text}
use masterfabric_backend.Errors.{Error}
use masterfabric_backend.Exec.{Result, ok, err, continue, pure, ◌>>=◌}
use masterfabric_backend.World.{Env, World, Act}
use masterfabric_backend.Permissions.{Role}
use masterfabric_backend.Iam.Model.{RefreshToken}
use masterfabric_backend.Iam.Access.{hash_token}
use masterfabric_backend.Iam.Refresh.{
  lookup_token, complete, RefreshResponse, refresh, live_token, rotate, reissue,
}
use masterfabric_backend.Service.Race.{
  Stage, checking, looking, judging, rotating, revoking, blacklisting, done, failed, settle,
  stage_action, move,
}

-- The end of a request.
abbrev pub ended : {env : Env} → Result RefreshResponse × World env → Stage × World env
ended (ok resp, u) = (done resp, u)
ended (err e, u) = (failed e, u)

module _ (env : Env) (hash : Text) where
  unfoldable pub moved : ℕ → Stage × World env → Stage × World env
  moved zero at = at
  moved (suc n) at = moved n (move env hash at.0 at.1)

  moved-failed : (n : ℕ) (e : Error) (w : World env) → moved n (failed e, w) ≡ (failed e, w)
  unfolding moved move stage_action settle pure
  moved-failed zero e w = refl
  moved-failed (suc n) e w = moved-failed n e w

  moved-continue :
      {A : Type 0} (n : ℕ) (r : Result A) (f : A → Stage) (k : A → Act env RefreshResponse)
      (w : World env)
      → ((a : A) (u : World env) → moved n (f a, u) ≡ ended (k a u))
      → moved n (settle (continue r (λ a. pure (f a)) w).0, (continue r (λ a. pure (f a)) w).1)
        ≡ ended (continue r k w)
  unfolding settle pure
  moved-continue n (ok a) f k w rest = rest a w
  moved-continue n (err e) f k w rest = moved-failed n e w

  -- One move, and the rest.
  moved-bind :
      {A : Type 0} (n : ℕ) (stage : Stage) (m : Act env A) (f : A → Stage)
      (k : A → Act env RefreshResponse) (w : World env)
      → stage_action env hash stage ≡ (m >>= λ a. pure (f a))
      → ((a : A) (u : World env) → moved n (f a, u) ≡ ended (k a u))
      → moved (suc n) (stage, w) ≡ ended ((m >>= k) w)
  unfolding moved move ◌>>=◌
  moved-bind n stage m f k w e rest =
      ap (λ (a : Act env Stage). moved n (settle (a w).0, (a w).1)) e
      ∙ moved-continue n (m w).0 f k (m w).1 rest

  moved-last :
      (r : Result RefreshResponse) (w : World env)
      → (settle (continue r (λ a. pure (done a)) w).0, (continue r (λ a. pure (done a)) w).1)
        ≡ ended (r, w)
  unfolding settle pure
  moved-last (ok resp) w = refl
  moved-last (err e) w = refl

  bind_assoc :
      {A B C : Type 0} (r : Result A) (f : A → Act env B) (g : B → Act env C) (w : World env)
      → ((λ (u : World env). continue r f u) >>= g) w ≡ continue r (λ a. f a >>= g) w
  unfolding ◌>>=◌
  bind_assoc (ok a) f g w = refl
  bind_assoc (err e) f g w = refl

  reissue-moved :
      (stored : RefreshToken) (now : ℕ) (roles : List Role) (w : World env)
      → moved 2 (blacklisting stored now roles, w) ≡ ended (reissue env hash stored now roles w)
  unfolding reissue stage_action moved move ◌>>=◌
  reissue-moved stored now roles w =
      moved-bind 1 (blacklisting stored now roles) _ _ _ w refl
        (λ _ u. moved-last (complete env stored now roles u).0 (complete env stored now roles u).1)

  rotate-moved :
      (stored : RefreshToken) (now : ℕ) (w : World env)
      → moved 4 (rotating stored now, w) ≡ ended (rotate env hash stored now w)
  unfolding rotate stage_action
  rotate-moved stored now w = moved-bind 3 (rotating stored now) _ _ _ w refl (λ roles u.
      moved-bind 2 (revoking stored now roles) _ _ _ u refl
        (λ _ v. reissue-moved stored now roles v))

  live-moved :
      (w : World env)
      → moved 6 (looking, w)
        ≡ ended ((live_token env hash >>= λ live. rotate env hash live.0 live.1) w)
  unfolding live_token stage_action ◌>>=◌
  live-moved w =
      moved-bind 5 looking _ judging _ w refl (λ stored u.
        moved-bind 4 (judging stored) _ _ _ u refl (λ live v. rotate-moved live.0 live.1 v))
      ∙ ap ended (sym (bind_assoc (lookup_token env hash w).0 _ _ (lookup_token env hash w).1))

-- A request whose seven moves nothing interrupts ends as `refresh` does: with its response or
-- its error, and in the same world.
pub moved-refresh :
    (env : Env) (token : Text) (w : World env)
    → moved env (hash_token env token) 7 (checking, w) ≡ ended (refresh env token w)
unfolding refresh stage_action
moved-refresh env token w =
    moved-bind env (hash_token env token) 6 checking _ _ _ w refl
      (λ _ u. live-moved env (hash_token env token) u)
