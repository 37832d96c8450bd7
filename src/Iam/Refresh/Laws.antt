-- ===== src/Iam/Refresh/Laws.antt =====
-- What a successful refresh has checked and done.
use mathlib.Core.Path.{subst, subst₂, ap₂}
use masterfabric_backend.Prelude.{
  ℕ, String, ◌≡◌, sym, ap, ◌∙◌, false, some, List, [], ◌∷◌, ◌++◌, Bool-cases, inl, inr, arith,
}
use masterfabric_backend.Prelude.Text.{Text}
use masterfabric_backend.Permissions.{Role}
use masterfabric_backend.Errors.{Error}
use masterfabric_backend.Exec.{Result, ok, attempt, map_err}
use masterfabric_backend.Exec.Inversion.{
  >>=-eq-ok, map_err-eq-ok, attempt-eq-ok, lift-eq-ok, pure-eq-ok, raise-ne-ok, >>-raise-ne-ok,
}
use masterfabric_backend.Table.{find, update}
use masterfabric_backend.World.{Env, World, advance}
use masterfabric_backend.World.Inversion.{call-eq-ok}
use masterfabric_backend.Iam.Model.{RefreshToken, Tables, is_revoked, is_expired}
use masterfabric_backend.Iam.Tokens.{with_hash, with_token_id, is_live, revoke_at}
use masterfabric_backend.Iam.Tokens.Laws.{
  create_token-eq-ok, find_token_by_hash-eq-ok, revoke_token-eq-ok,
}
use masterfabric_backend.Iam.RoleStore.{find_roles_by_user_id}
use masterfabric_backend.Reads.{
  Keeps-frame, Keeps-tokens, find_roles_by_user_id-Keeps, check_blacklist-Keeps,
  blacklist_revoke-Keeps, generate_opaque_token-Keeps, generate_access-Keeps,
}
use masterfabric_backend.Iam.Access.{
  hash_token, generate_opaque_token, generate_access, refresh_row,
}
use masterfabric_backend.Iam.Blacklist.{blacklist_revoke}
use masterfabric_backend.Iam.Refresh.{
  complete, RefreshResponse, found_token, lookup_token, check_live, check_blacklist, live_token,
  reissue, rotate, refresh,
}

found_token-eq-ok : (r : Result RefreshToken) {t : RefreshToken} → found_token r ≡ ok t → r ≡ ok t
unfolding found_token
found_token-eq-ok r h = ground arith

-- What a refresh that returned has found and done to the tokens.
pub record IsRotation (env : Env) (token : Text) (before after : List RefreshToken)
    (resp : RefreshResponse) : Type 0 where
  pub old : RefreshToken
  pub now : ℕ
  pub revoked_at : ℕ
  pub id : ℕ
  pub found : find (with_hash (hash_token env token)) before ≡ some old
  pub unexpired : is_expired old now ≡ false
  pub live : is_revoked old ≡ false
  pub rotated :
      after
      ≡ update (is_live (with_token_id old.id)) (revoke_at revoked_at) before
        ++ refresh_row env id old.user_id resp.refresh_token now ∷ []

module _ {env : Env} where
  abbrev tokens_in : World env → List RefreshToken
  tokens_in w = w.iam.tokens

  abbrev iam_of : World env → Tables
  iam_of w = w.iam

  pub lookup_token-eq-ok :
      (hash : Text) (w u : World env) (t : RefreshToken)
      → lookup_token env hash w ≡ (ok t, u)
      → (find (with_hash hash) w.iam.tokens ≡ some t) × (advance env w ≡ u)
  unfolding lookup_token
  lookup_token-eq-ok hash w u t h =
      let (r, w1, asked, lifted) = >>=-eq-ok _ _ w h in
      let (e, same) = lift-eq-ok _ w1 lifted in
      let (found, moved) = find_token_by_hash-eq-ok hash w (
        attempt-eq-ok _ w asked
        ∙ ap (λ (x : Result RefreshToken). (x, w1)) (found_token-eq-ok r e)) in
      (found, moved ∙ same)

  pub check_live-eq-ok :
      (hash : Text) (w u : World env) (stored t : RefreshToken) (at now : ℕ)
      → check_live env hash stored at w ≡ (ok (t, now), u)
      → (is_expired stored at ≡ false)
        × (is_revoked stored ≡ false)
        × (stored ≡ t)
        × (at ≡ now)
        × (w ≡ u)
  unfolding check_live
  check_live-eq-ok hash w u stored t at now h = elim (Bool-cases (is_expired stored at)) [
    | inl e ↦ absurd (raise-ne-ok _ w (rw e at h))
    | inr e ↦ elim (Bool-cases (is_revoked stored)) [
      | inl r ↦ absurd (>>-raise-ne-ok _ _ w (rw r at (rw e at h)))
      | inr r ↦
          let (same, stay) = pure-eq-ok _ w (rw r at (rw e at h)) in
          (
            e,
            r,
            ap (λ (p : RefreshToken × ℕ). p.0) same,
            ap (λ (p : RefreshToken × ℕ). p.1) same,
            stay,
          )
    ]
  ]

  -- The token that `live_token` returns is the row of the hash, neither expired nor revoked.
  pub live_token-eq-ok :
      (hash : Text) (w u : World env) (t : RefreshToken) (now : ℕ)
      → live_token env hash w ≡ (ok (t, now), u)
      → (find (with_hash hash) w.iam.tokens ≡ some t)
        × (is_expired t now ≡ false)
        × (is_revoked t ≡ false)
        × (u.iam ≡ w.iam)
  unfolding live_token
  live_token-eq-ok hash w u t now h =
      let (stored, w1, looked, rest) = >>=-eq-ok _ _ w h in
      let (at, w2, called, checked) = >>=-eq-ok _ _ w1 rest in
      let (found, moved) = lookup_token-eq-ok hash w w1 stored looked in
      let (fresh, live, same, same_at, stay) = check_live-eq-ok hash w2 u stored t at now checked in
      (
        found ∙ ap some same,
        subst₂ (λ (x : RefreshToken) (y : ℕ). is_expired x y ≡ false) same same_at fresh,
        subst (λ (x : RefreshToken). is_revoked x ≡ false) same live,
        sym (ap iam_of moved ∙ ap iam_of (call-eq-ok env.now w1 called).1 ∙ ap iam_of stay),
      )

  note_revoked-tokens :
      (hash : Text) (ttl : ℕ) (w u : World env) {r : Result (Unit {0})}
      → attempt (blacklist_revoke env hash ttl) w ≡ (ok r, u)
      → u.iam.tokens ≡ w.iam.tokens
  note_revoked-tokens hash ttl w u e =
      Keeps-tokens (blacklist_revoke env hash ttl) w u (attempt-eq-ok _ w e)
        (Keeps-frame (blacklist_revoke env hash ttl) w (blacklist_revoke-Keeps hash ttl))

  generate_raw-tokens :
      (f : Error → Error) (w u : World env) {raw : Text}
      → map_err f (generate_opaque_token env) w ≡ (ok raw, u)
      → u.iam.tokens ≡ w.iam.tokens
  generate_raw-tokens f w u e =
      Keeps-tokens (generate_opaque_token env) w u (map_err-eq-ok f _ w e)
        (Keeps-frame (generate_opaque_token env) w generate_opaque_token-Keeps)

  sign-tokens :
      (f : Error → Error) (user_id : ℕ) (names : List String) (w u : World env) {a : Text × ℕ}
      → map_err f (generate_access env user_id names) w ≡ (ok a, u)
      → u.iam.tokens ≡ w.iam.tokens
  sign-tokens f user_id names w u e =
      Keeps-tokens (generate_access env user_id names) w u (map_err-eq-ok f _ w e)
        (Keeps-frame (generate_access env user_id names) w (generate_access-Keeps user_id names))

  -- What follows the revocation appends one row, for the user of the old one, whose hash is that
  -- of the returned token.
  reissue-eq-ok :
      (hash : Text) (stored : RefreshToken) (now : ℕ) (roles : List Role) (w u : World env)
      (resp : RefreshResponse)
      → reissue env hash stored now roles w ≡ (ok resp, u)
      → (id : ℕ) × (u.iam.tokens
          ≡ w.iam.tokens ++ refresh_row env id stored.user_id resp.refresh_token now ∷ [])
  unfolding reissue complete
  reissue-eq-ok hash stored now roles w u resp h =
      let (r, w1, noted, rest1) = >>=-eq-ok _ _ w h in
      let (raw, w2, drawn, rest2) = >>=-eq-ok _ _ w1 rest1 in
      let (id, w3, called, rest3) = >>=-eq-ok _ _ w2 rest2 in
      let (_, w4, created, rest4) = >>=-eq-ok _ _ w3 rest3 in
      let (access, w5, signed, last) = >>=-eq-ok _ _ w4 rest4 in
      let (same, stay) = pure-eq-ok _ w5 last in
      (
        id,
        sym (ap tokens_in stay)
            ∙ sign-tokens _ _ _ w4 w5 signed
            ∙ (create_token-eq-ok _ w3 w4 created).0
            ∙ ap₂
                (λ (ts : List RefreshToken) (x : Text).
                  ts ++ refresh_row env id stored.user_id x now ∷ [])
                (sym (ap tokens_in (call-eq-ok env.fresh w2 called).1)
                  ∙ generate_raw-tokens _ w1 w2 drawn
                  ∙ note_revoked-tokens hash _ w w1 noted)
                (ap (λ (x : RefreshResponse). x.refresh_token) same),
      )

  rotate-eq-ok :
      (hash : Text) (stored : RefreshToken) (now : ℕ) (w u : World env) (resp : RefreshResponse)
      → rotate env hash stored now w ≡ (ok resp, u)
      → (at : ℕ) × (id : ℕ) × (u.iam.tokens
          ≡ update (is_live (with_token_id stored.id)) (revoke_at at) w.iam.tokens
            ++ refresh_row env id stored.user_id resp.refresh_token now ∷ [])
  unfolding rotate
  rotate-eq-ok hash stored now w u resp h =
      let (roles, w1, read, rest1) = >>=-eq-ok _ _ w h in
      let (_, w2, revoked, rest2) = >>=-eq-ok _ _ w1 rest1 in
      let (id, reissued) = reissue-eq-ok hash stored now roles w2 u resp rest2 in
      let same = Keeps-tokens (find_roles_by_user_id env stored.user_id) w w1 read (
        Keeps-frame (find_roles_by_user_id env stored.user_id) w
          (find_roles_by_user_id-Keeps stored.user_id)) in
      (
        env.now w1.step,
        id,
        reissued
            ∙ ap
                (λ (ts : List RefreshToken).
                  ts ++ refresh_row env id stored.user_id resp.refresh_token now ∷ [])
                ((revoke_token-eq-ok stored.id w1 w2 revoked).1
                  ∙ ap (update (is_live (with_token_id stored.id)) (revoke_at (env.now w1.step)))
                      same),
      )

  check_blacklist-tokens :
      (hash : Text) (w u : World env)
      → check_blacklist env hash w ≡ (ok tt, u)
      → u.iam.tokens ≡ w.iam.tokens
  check_blacklist-tokens hash w u e =
      Keeps-tokens (check_blacklist env hash) w u e
        (Keeps-frame (check_blacklist env hash) w (check_blacklist-Keeps hash))

-- A refresh that returns has found a row under the token's hash that was neither revoked nor
-- expired, has revoked it, and has appended one unrevoked row for the same user, under the hash
-- of the token that it returns; the other rows stay.
pub refresh-IsRotation :
    (env : Env) (token : Text) (w u : World env) (resp : RefreshResponse)
    → refresh env token w ≡ (ok resp, u)
    → IsRotation env token w.iam.tokens u.iam.tokens resp
unfolding refresh
refresh-IsRotation env token w u resp h =
    let (_, w1, checked, rest1) = >>=-eq-ok _ _ w h in
    let (live, w2, looked, rest2) = >>=-eq-ok _ _ w1 rest1 in
    let (found, fresh, unrevoked, same) =
      live_token-eq-ok (hash_token env token) w1 w2 live.0 live.1 looked in
    let (at, id, rotated) = rotate-eq-ok (hash_token env token) live.0 live.1 w2 u resp rest2 in
    let same1 = check_blacklist-tokens (hash_token env token) w w1 checked in
    record {
      old = live.0;
      now = live.1;
      revoked_at = at;
      id = id;
      found = ap (find (with_hash (hash_token env token))) (sym same1) ∙ found;
      unexpired = fresh;
      live = unrevoked;
      rotated =
          rotated
          ∙ ap
              (λ (ts : List RefreshToken).
                update (is_live (with_token_id live.0.id)) (revoke_at at) ts
                ++ refresh_row env id live.0.user_id resp.refresh_token live.1 ∷ [])
              (ap (λ (x : Tables). x.tokens) same ∙ same1);
    }
