-- ===== src/Service/Race/Moves.antt =====
-- What a move of a request does to the row of its token.
use mathlib.Core.Path.{subst}
use mathlib.Core.Option.{some-injective}
use masterfabric_backend.Prelude.{
  ℕ, ◌≡◌, refl, sym, ap, ◌∙◌, ◌⊎◌, inl, inr, Bool, true, false, List, any, nat_eq,
}
use masterfabric_backend.Prelude.Text.{Text}
use masterfabric_backend.Errors.{Error}
use masterfabric_backend.Exec.{Result, ok, err, continue, pure, attempt, ◌>>=◌}
use masterfabric_backend.Exec.Inversion.{>>=-eq-ok}
use masterfabric_backend.Table.Laws.{any-update}
use masterfabric_backend.World.{Env, World, Act, call}
use masterfabric_backend.World.Keeps.{Keeps}
use masterfabric_backend.Reads.{read_rules}
use masterfabric_backend.Permissions.{Role}
use masterfabric_backend.Iam.Model.{RefreshToken, remaining_lifetime}
use masterfabric_backend.Iam.RoleStore.{find_roles_by_user_id}
use masterfabric_backend.Iam.Blacklist.{blacklist_revoke}
use masterfabric_backend.Iam.Refresh.{
  RefreshResponse, check_blacklist, lookup_token, check_live, complete,
}
use masterfabric_backend.Iam.Tokens.{with_token_id, is_live, revoke_at, revoke_token}
use masterfabric_backend.Iam.Tokens.Laws.{revoke_token-eq-ok}
use masterfabric_backend.Iam.Refresh.Laws.{lookup_token-eq-ok, check_live-eq-ok}
use masterfabric_backend.Service.Writes.{KeptByWrites, revoke_token-Keeps}
use masterfabric_backend.Service.Keeps.Identity.{
  lookup_token-Keeps, check_live-Keeps, complete-Keeps,
}
use masterfabric_backend.Service.TokenRows.{OfTokens}
use masterfabric_backend.Service.Race.{
  Stage, checking, looking, judging, rotating, revoking, blacklisting, completing, done, failed,
  settle, stage_action, move,
}
use masterfabric_backend.Service.Race.Rows.{Finds, IsSpent, revoked-dead, live-known}

-- The request has revoked the row.
unfoldable pub has_rotated : Stage → Bool
has_rotated (blacklisting stored now roles) = true
has_rotated (completing stored now roles) = true
has_rotated (done resp) = true
has_rotated _ = false

-- The rows a request carries have the id.
unfoldable pub IsOfRow : ℕ → Stage → Type 0
IsOfRow id (judging stored) = stored.id ≡ id
IsOfRow id (rotating stored now) = stored.id ≡ id
IsOfRow id (revoking stored now roles) = stored.id ≡ id
IsOfRow id _ = Unit {0}

module _ (env : Env) (hash : Text) where
  stage_action-Keeps :
      (Q : List RefreshToken → Type 0)
      → KeptByWrites env (OfTokens env Q)
      → (stage : Stage) → Keeps env (OfTokens env Q) (stage_action env hash stage)
  unfolding stage_action
  stage_action-Keeps Q K checking = search read_rules
  stage_action-Keeps Q K looking = search (read_rules, lookup_token-Keeps K)
  stage_action-Keeps Q K (judging stored) = search (read_rules, check_live-Keeps K)
  stage_action-Keeps Q K (rotating stored now) = search read_rules
  stage_action-Keeps Q K (revoking stored now roles) = search (read_rules, revoke_token-Keeps K)
  stage_action-Keeps Q K (blacklisting stored now roles) = search read_rules
  stage_action-Keeps Q K (completing stored now roles) = search (read_rules, complete-Keeps K)
  stage_action-Keeps Q K (done resp) = search read_rules
  stage_action-Keeps Q K (failed e) = search read_rules

  pub move-keeps :
      (Q : List RefreshToken → Type 0)
      → KeptByWrites env (OfTokens env Q)
      → (stage : Stage) (w : World env) → Q w.iam.tokens
      → Q (move env hash stage w).1.iam.tokens
  unfolding move
  move-keeps Q K stage w q = (stage_action-Keeps Q K stage).at w q

  -- The end of a move: the part returned and the next stage is reached, or the request failed.
  settled-cases :
      {A : Type 0} (m : Act env A) (f : A → Stage) (w : World env)
      → ((a : A) × (u : World env) × (m w ≡ (ok a, u))
          × (settle ((m >>= λ a. pure (f a)) w).0 ≡ f a)
          × (((m >>= λ a. pure (f a)) w).1 ≡ u))
        ⊎ ((e : Error) × (settle ((m >>= λ a. pure (f a)) w).0 ≡ failed e))
  unfolding ◌>>=◌ pure settle
  settled-cases {A = A} m f w = cases (m w).0 (m w).1 refl
    where
      cases :
          (r : Result A) (u : World env)
          → m w ≡ (r, u)
          → ((a : A) × (v : World env) × (m w ≡ (ok a, v))
              × (settle (continue r (λ a. pure (f a)) u).0 ≡ f a)
              × ((continue r (λ a. pure (f a)) u).1 ≡ v))
            ⊎ ((e : Error) × (settle (continue r (λ a. pure (f a)) u).0 ≡ failed e))
      cases (ok a) u h = inl (a, u, h, refl, refl)
      cases (err e) u h = inr (e, refl)

  -- A move keeps a request on its row, and takes it past the revocation only where the row was
  -- live until then.
  pub record IsMove (id : ℕ) (stage next : Stage) (before after : List RefreshToken) : Type 0 where
    pub of_row : IsOfRow id next
    pub rotated :
        has_rotated next ≡ true
        → (has_rotated stage ≡ true)
          ⊎ ((any (is_live (with_token_id id)) before ≡ true) × IsSpent id after)

  failed-IsMove :
      (id : ℕ) (stage next : Stage) (e : Error) (before after : List RefreshToken)
      → next ≡ failed e
      → IsMove id stage next before after
  unfolding IsOfRow has_rotated
  failed-IsMove id stage next e before after h = record {
    of_row = subst (IsOfRow id) (sym h) tt;
    rotated = λ r. cc (sym (ap has_rotated h) ∙ r);
  }

  -- A next stage that is not past the revocation, or a stage that is.
  plain-IsMove :
      (id : ℕ) (stage next goal : Stage) (before after : List RefreshToken)
      → next ≡ goal
      → IsOfRow id goal
      → ((has_rotated goal ≡ false) ⊎ (has_rotated stage ≡ true))
      → IsMove id stage next before after
  plain-IsMove id stage next goal before after h row (inl before_it) = record {
    of_row = subst (IsOfRow id) (sym h) row;
    rotated = λ r. cc (sym (ap has_rotated h) ∙ r, before_it);
  }
  plain-IsMove id stage next goal before after h row (inr past) = record {
    of_row = subst (IsOfRow id) (sym h) row;
    rotated = λ r. inl past;
  }

  spent-after :
      (id : ℕ) (w u : World env)
      → revoke_token env id w ≡ (ok tt, u)
      → (any (is_live (with_token_id id)) w.iam.tokens ≡ true) × IsSpent id u.iam.tokens
  spent-after id w u h =
      let (live, tokens, _) = revoke_token-eq-ok id w u h in
      (
        live,
        record {
          known =
              ap (any (with_token_id id)) tokens
              ∙ any-update (with_token_id id) (is_live (with_token_id id))
                  (revoke_at (env.now w.step)) w.iam.tokens (λ t. refl)
              ∙ live-known id w.iam.tokens live;
          dead =
              ap (any (is_live (with_token_id id))) tokens
              ∙ revoked-dead (env.now w.step) id w.iam.tokens;
        },
      )

  revoked-IsMove :
      (id : ℕ) (stored : RefreshToken) (now : ℕ) (roles : List Role) (w u : World env)
      (next : Stage) (v : World env)
      → stored.id ≡ id
      → revoke_token env stored.id w ≡ (ok tt, u)
      → next ≡ blacklisting stored now roles
      → v ≡ u
      → IsMove id (revoking stored now roles) next w.iam.tokens v.iam.tokens
  unfolding IsOfRow has_rotated
  revoked-IsMove id stored now roles w u next v own h e there = record {
    of_row = subst (IsOfRow id) (sym e) tt;
    rotated = λ r. inr (
        subst
          (λ (x : World env).
            (any (is_live (with_token_id id)) w.iam.tokens ≡ true) × IsSpent id x.iam.tokens)
          (sym there)
          (subst
            (λ (i : ℕ).
              (any (is_live (with_token_id i)) w.iam.tokens ≡ true) × IsSpent i u.iam.tokens)
            own (spent-after stored.id w u h)));
  }

  done-stays :
      (resp : RefreshResponse) (w : World env) → (move env hash (done resp) w).0 ≡ done resp
  unfolding move stage_action settle pure
  done-stays resp w = refl

  failed-stays : (e : Error) (w : World env) → (move env hash (failed e) w).0 ≡ failed e
  unfolding move stage_action settle pure
  failed-stays e w = refl

  module _ (id : ℕ) (w : World env) (row : Finds hash id w.iam.tokens) where
    abbrev MoveOf : Stage → Type 0
    MoveOf stage =
        IsMove id stage (move env hash stage w).0 w.iam.tokens (move env hash stage w).1.iam.tokens

    pub move-IsMove : (stage : Stage) → IsOfRow id stage → MoveOf stage
    unfolding move stage_action IsOfRow has_rotated
    move-IsMove checking own = elim (settled-cases (check_blacklist env hash) (λ _. looking) w) [
      | inl (_, u, _, next, _) ↦ plain-IsMove id _ _ looking _ _ next tt (inl refl)
      | inr (e, next) ↦ failed-IsMove id _ _ e _ _ next
    ]
    move-IsMove looking own = elim (settled-cases (lookup_token env hash) judging w) [
      | inl (t, u, h, next, _) ↦
          let (d, found, same) = row in
          let e = some-injective d t (sym found ∙ (lookup_token-eq-ok hash w u t h).0) in
          plain-IsMove id _ _ (judging t) _ _ next (sym (ap (λ (x : RefreshToken). x.id) e) ∙ same)
            (inl refl)
      | inr (e, next) ↦ failed-IsMove id _ _ e _ _ next
    ]
    move-IsMove (judging stored) own =
        elim (settled-cases (do now ← call env env.now; check_live env hash stored now)
          (λ live. rotating live.0 live.1) w) [
            | inl (live, u, h, next, _) ↦
                let (at, v, _, checked) = >>=-eq-ok _ _ w h in
                let (_, _, same, _, _) =
                  check_live-eq-ok hash v u stored live.0 at live.1 checked in
                plain-IsMove id _ _ (rotating live.0 live.1) _ _ next
                  (sym (ap (λ (x : RefreshToken). x.id) same) ∙ own) (inl refl)
            | inr (e, next) ↦ failed-IsMove id _ _ e _ _ next
          ]
    move-IsMove (rotating stored now) own =
        elim (settled-cases (find_roles_by_user_id env stored.user_id) (revoking stored now) w) [
          | inl (roles, u, h, next, _) ↦
              plain-IsMove id _ _ (revoking stored now roles) _ _ next own (inl refl)
          | inr (e, next) ↦ failed-IsMove id _ _ e _ _ next
        ]
    move-IsMove (revoking stored now roles) own =
        elim (settled-cases (revoke_token env stored.id) (λ _. blacklisting stored now roles) w) [
          | inl (_, u, h, next, there) ↦ revoked-IsMove id stored now roles w u _ _ own h next there
          | inr (e, next) ↦ failed-IsMove id _ _ e _ _ next
        ]
    move-IsMove (blacklisting stored now roles) own =
        elim (settled-cases (attempt (blacklist_revoke env hash (remaining_lifetime stored now)))
          (λ _. completing stored now roles) w) [
            | inl (_, u, h, next, _) ↦
                plain-IsMove id _ _ (completing stored now roles) _ _ next tt (inr refl)
            | inr (e, next) ↦ failed-IsMove id _ _ e _ _ next
          ]
    move-IsMove (completing stored now roles) own =
        elim (settled-cases (complete env stored now roles) done w) [
          | inl (resp, u, h, next, _) ↦ plain-IsMove id _ _ (done resp) _ _ next tt (inr refl)
          | inr (e, next) ↦ failed-IsMove id _ _ e _ _ next
        ]
    move-IsMove (done resp) own =
        plain-IsMove id _ _ (done resp) _ _ (done-stays resp w) tt (inr refl)
    move-IsMove (failed e) own = failed-IsMove id _ _ e _ _ (failed-stays e w)
