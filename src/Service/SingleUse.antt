-- ===== src/Service/SingleUse.antt =====
-- A refresh token works once: what its first use leaves behind, and that nothing undoes it.
use mathlib.Core.Path.{subst}
use mathlib.Core.Option.{some-injective}
use masterfabric_backend.Prelude.{
  ℕ, ◌≡◌, refl, sym, ap, ◌∙◌, ◌≢◌, Bool, true, false, some, List, arith, if◌then◌else◌, ==-refl,
  nat_eq,
}
use masterfabric_backend.Prelude.Text.{Text}
use masterfabric_backend.Exec.{ok}
use masterfabric_backend.Table.{find}
use masterfabric_backend.Table.Laws.{find-append_some, find-update}
use masterfabric_backend.World.{Env, World}
use masterfabric_backend.World.Keeps.{Property}
use masterfabric_backend.Iam.Model.{RefreshToken, is_revoked}
use masterfabric_backend.Iam.Tokens.{
  with_hash, with_token_id, is_live, revoke_at, insert_token, revoke_where,
}
use masterfabric_backend.Iam.Access.{hash_token}
use masterfabric_backend.Iam.Refresh.{RefreshResponse, refresh}
use masterfabric_backend.Iam.Refresh.Laws.{refresh-IsRotation}
use masterfabric_backend.Service.{Operation, run}
use masterfabric_backend.Service.Writes.{KeptByWrites}
use masterfabric_backend.Service.TokenRows.{KeptByWrites-tokens}
use masterfabric_backend.Service.Keeps.{run-Keeps}

-- The row that the hash finds is revoked.
abbrev pub IsDead : (env : Env) → Text → Property env
IsDead env hash iam llm =
    (t : RefreshToken) × (find (with_hash hash) iam.tokens ≡ some t) × (is_revoked t ≡ true)

live_found : (t : RefreshToken) → is_revoked t ≡ false → is_live (with_token_id t.id) t ≡ true
unfolding is_live
live_found t h = ground (arith, ==-refl t.id)

pub revoked_after :
    (p : RefreshToken → Bool) (at : ℕ) (t : RefreshToken)
    → is_revoked t ≡ true
    → is_revoked (if p t then revoke_at at t else t) ≡ true
unfolding is_revoked
revoked_after p at t h = ground arith

module _ {env : Env} where
  IsDead-insert_token :
      (hash : Text) (t : RefreshToken) (n : ℕ) (w : World env)
      → IsDead env hash w.iam w.llm
      → IsDead env hash (insert_token env t n w).1.iam (insert_token env t n w).1.llm
  unfolding insert_token
  IsDead-insert_token hash t n w (d, e, r) = (d, grind (arith, find-append_some), r)

  IsDead-revoke_where :
      (hash : Text) (p : RefreshToken → Bool) (n : ℕ) (w : World env)
      → IsDead env hash w.iam w.llm
      → IsDead env hash (revoke_where env p n w).1.iam (revoke_where env p n w).1.llm
  unfolding revoke_where
  IsDead-revoke_where hash p n w (d, e, r) = (
    if is_live p d then revoke_at (env.now n) d else d,
    find-update (with_hash hash) (is_live p) (revoke_at (env.now n)) w.iam.tokens (λ t. refl) e,
    revoked_after (is_live p) (env.now n) d r,
  )

-- Every writing statement leaves a dead token dead.
IsDead-KeptByWrites : (env : Env) (hash : Text) → KeptByWrites env (IsDead env hash)
IsDead-KeptByWrites env hash =
    KeptByWrites-tokens env
      (λ tokens.
        (t : RefreshToken) × (find (with_hash hash) tokens ≡ some t) × (is_revoked t ≡ true))
      (IsDead-insert_token hash) (IsDead-revoke_where hash)

module _ (env : Env) (token : Text) where
  -- A refresh that returned has left the row of its token revoked.
  refresh-IsDead :
      (w u : World env) (resp : RefreshResponse)
      → refresh env token w ≡ (ok resp, u)
      → IsDead env (hash_token env token) u.iam u.llm
  refresh-IsDead w u resp h =
      let r = refresh-IsRotation env token w u resp h in
      let hit = live_found r.old r.live in
      (
        revoke_at r.revoked_at r.old,
        ap (find (with_hash (hash_token env token))) r.rotated
            ∙ find-append_some (with_hash (hash_token env token)) _ _ (
                find-update (with_hash (hash_token env token)) (is_live (with_token_id r.old.id))
                  (revoke_at r.revoked_at) w.iam.tokens (λ t. refl) r.found
                ∙ ap (λ (b : Bool). some (if b then revoke_at r.revoked_at r.old else r.old)) hit),
        unfold is_revoked in refl,
      )

  -- A dead token is refused.
  dead_refused :
      (w u : World env) (resp : RefreshResponse)
      → IsDead env (hash_token env token) w.iam w.llm
      → refresh env token w ≢ (ok resp, u)
  dead_refused w u resp (d, e, r) h =
      let s = refresh-IsRotation env token w u resp h in
      let same : d ≡ s.old = some-injective d s.old (sym e ∙ s.found) in
      cc (sym (ap is_revoked same) ∙ r, s.live)

  -- Nothing brings a dead token back.
  pub dead_for_good :
      (u v x : World env) (resp : RefreshResponse) (ops : List (Operation env))
      → IsDead env (hash_token env token) u.iam u.llm
      → run env ops u ≡ v
      → refresh env token v ≢ (ok resp, x)
  dead_for_good u v x resp ops dead ran = dead_refused v x resp (
      subst (λ (z : World env). IsDead env (hash_token env token) z.iam z.llm) ran
        (run-Keeps (IsDead-KeptByWrites env (hash_token env token)) ops u dead))

  -- After a refresh has returned, no refresh with the same token returns, whatever operations the
  -- clients run in between and whatever faults and clocks they meet.
  pub refresh_once :
      (w u v x : World env) (first second : RefreshResponse) (ops : List (Operation env))
      → refresh env token w ≡ (ok first, u)
      → run env ops u ≡ v
      → refresh env token v ≢ (ok second, x)
  refresh_once w u v x first second ops h ran =
      dead_for_good u v x second ops (refresh-IsDead w u first h) ran
