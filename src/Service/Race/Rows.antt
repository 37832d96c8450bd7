-- ===== src/Service/Race/Rows.antt =====
-- A refresh token's row under the statements that write tokens: the hash goes on finding it,
-- and a row that is revoked stays so.
use masterfabric_backend.Prelude.{
  ℕ, ◌≡◌, refl, ap, ◌∙◌, inl, inr, Bool, true, false, Bool-cases, some, List, [], ◌∷◌, ◌++◌, any,
  arith, ◌==◌, nat_eq, nat_beq_iff, if◌then◌else◌,
}
use masterfabric_backend.Prelude.Text.{Text}
use masterfabric_backend.Table.{find, update}
use masterfabric_backend.Table.Laws.{find-append_some, find-update, any-update}
use masterfabric_backend.World.{Env, World}
use masterfabric_backend.Iam.Model.{RefreshToken, is_revoked}
use masterfabric_backend.Iam.Tokens.{
  with_hash, with_token_id, is_live, revoke_at, insert_token, revoke_where,
}
use masterfabric_backend.Service.Writes.{KeptByWrites}
use masterfabric_backend.Service.TokenRows.{OfTokens, KeptByWrites-tokens}

-- The hash finds a row with the id, and no row with the id is live.
abbrev pub Finds : Text → ℕ → List RefreshToken → Type 0
Finds hash id tokens = (t : RefreshToken) × (find (with_hash hash) tokens ≡ some t) × (t.id ≡ id)

pub record IsSpent (id : ℕ) (tokens : List RefreshToken) : Type 0 where
  pub known : any (with_token_id id) tokens ≡ true
  pub dead : any (is_live (with_token_id id)) tokens ≡ false

update-dead :
    (p : RefreshToken → Bool) (at id : ℕ) (tokens : List RefreshToken)
    → any (is_live (with_token_id id)) tokens ≡ false
    → any (is_live (with_token_id id)) (update p (revoke_at at) tokens) ≡ false
unfolding update is_live is_revoked
update-dead p at id [] h = refl
update-dead p at id (t ∷ tokens) h = ground (arith, update-dead p at id tokens)

pub revoked-dead :
    (at id : ℕ) (tokens : List RefreshToken)
    → any (is_live (with_token_id id)) (update (is_live (with_token_id id)) (revoke_at at) tokens)
      ≡ false
unfolding update is_live is_revoked
revoked-dead at id [] = refl
revoked-dead at id (t ∷ tokens) = ground (arith, revoked-dead at id tokens)

pub live-known :
    (id : ℕ) (tokens : List RefreshToken)
    → any (is_live (with_token_id id)) tokens ≡ true
    → any (with_token_id id) tokens ≡ true
unfolding is_live
live-known id [] h = cc h
live-known id (t ∷ tokens) h = ground (arith, live-known id tokens)

append-dead :
    (id : ℕ) (tokens : List RefreshToken) (t : RefreshToken)
    → any (is_live (with_token_id id)) tokens ≡ false
    → (t.id == id) ≡ false
    → any (is_live (with_token_id id)) (tokens ++ t ∷ []) ≡ false
unfolding is_live
append-dead id [] t h other = ground arith
append-dead id (s ∷ tokens) t h other = ground (arith, append-dead id tokens t)

append-known :
    (id : ℕ) (tokens : List RefreshToken) (t : RefreshToken)
    → any (with_token_id id) tokens ≡ true
    → any (with_token_id id) (tokens ++ t ∷ []) ≡ true
append-known id [] t h = cc h
append-known id (s ∷ tokens) t h = ground (arith, append-known id tokens t)

fresh-other :
    (id new : ℕ) (tokens : List RefreshToken)
    → any (with_token_id id) tokens ≡ true
    → any (with_token_id new) tokens ≡ false
    → (new == id) ≡ false
fresh-other id new tokens known fresh = elim (Bool-cases (new == id)) [
  | inr other ↦ other
  | inl same ↦ absurd (
      let e : new ≡ id = (nat_beq_iff new id).0 same in
      cc (known, fresh, ap (λ (x : ℕ). any (with_token_id x) tokens) e))
]

module _ {env : Env} where
  insert_token-IsSpent :
      (id : ℕ) (t : RefreshToken) (n : ℕ) (w : World env)
      → IsSpent id w.iam.tokens
      → IsSpent id (insert_token env t n w).1.iam.tokens
  unfolding insert_token
  insert_token-IsSpent id t n w s = elim (Bool-cases (any (with_token_id t.id) w.iam.tokens)) [
    | inl taken ↦ rw taken s
    | inr fresh ↦ elim (Bool-cases (any (λ u. u.id == t.user_id) w.iam.users)) [
      | inr nobody ↦ rw fresh (rw nobody s)
      | inl user ↦ rw fresh (
          rw user (record {
            known = append-known id w.iam.tokens _ s.known;
            dead =
                append-dead id w.iam.tokens _ s.dead
                  (fresh-other id t.id w.iam.tokens s.known fresh);
          }))
    ]
  ]

  revoke_where-IsSpent :
      (id : ℕ) (p : RefreshToken → Bool) (n : ℕ) (w : World env)
      → IsSpent id w.iam.tokens
      → IsSpent id (revoke_where env p n w).1.iam.tokens
  unfolding revoke_where
  revoke_where-IsSpent id p n w s = record {
    known =
        any-update (with_token_id id) (is_live p) (revoke_at (env.now n)) w.iam.tokens (λ t. refl)
        ∙ s.known;
    dead = update-dead (is_live p) (env.now n) id w.iam.tokens s.dead;
  }

  insert_token-Finds :
      (hash : Text) (id : ℕ) (t : RefreshToken) (n : ℕ) (w : World env)
      → Finds hash id w.iam.tokens
      → Finds hash id (insert_token env t n w).1.iam.tokens
  unfolding insert_token
  insert_token-Finds hash id t n w (d, e, same) = (d, grind (arith, find-append_some), same)

  revoke_where-Finds :
      (hash : Text) (id : ℕ) (p : RefreshToken → Bool) (n : ℕ) (w : World env)
      → Finds hash id w.iam.tokens
      → Finds hash id (revoke_where env p n w).1.iam.tokens
  unfolding revoke_where
  revoke_where-Finds hash id p n w (d, e, same) = (
    if is_live p d then revoke_at (env.now n) d else d,
    find-update (with_hash hash) (is_live p) (revoke_at (env.now n)) w.iam.tokens (λ t. refl) e,
    ground (arith, same),
  )

pub IsSpent-KeptByWrites : (env : Env) (id : ℕ) → KeptByWrites env (OfTokens env (IsSpent id))
IsSpent-KeptByWrites env id =
    KeptByWrites-tokens env (IsSpent id) (insert_token-IsSpent id) (revoke_where-IsSpent id)

pub Finds-KeptByWrites :
    (env : Env) (hash : Text) (id : ℕ) → KeptByWrites env (OfTokens env (Finds hash id))
Finds-KeptByWrites env hash id =
    KeptByWrites-tokens env (Finds hash id) (insert_token-Finds hash id)
      (revoke_where-Finds hash id)
