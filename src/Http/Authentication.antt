-- ===== src/Http/Authentication.antt =====
-- `Auth` of internal/shared/middleware/auth.go. `strings.EqualFold` and `ParseAccess`, which is
-- the token library's verification, are parameters.
use mathlib.Core.Path.{ap₂, subst}
use mathlib.Core.Option.{some-injective}
use masterfabric_backend.Prelude.{
  ℕ, ◌≡◌, refl, sym, ap, ◌∙◌, ◌≢◌, ◌↔◌, inl, inr, Bool, true, false, Option, none, some, [], ◌∷◌,
  ◌++◌, any, Bool-cases, ◌==◌, nat_eq, list_eq, if◌then◌else◌, arith, list_beq, list_beq_iff,
  nat_beq_iff,
}
use masterfabric_backend.Prelude.Text.{Text, codes}

-- The three refusals, and the claims that reach the request's context.
pub data Answer (Claims : Type 0) : Type 0 where
  missing_header invalid_header invalid_token : Answer Claims
  authenticated : Claims → Answer Claims

pub split_cons : ℕ → Option (Text × Text) → Option (Text × Text)
split_cons c none = none
split_cons c (some (a, b)) = some (c ∷ a, b)

-- `strings.SplitN(header, " ", 2)`: `none` where there is one part.
pub split_space : Text → Option (Text × Text)
unfolding split_cons
split_space [] = none
split_space (c ∷ s) =
    let rest = split_space s in if c == b' ' then some ([], s) else split_cons c rest

-- What becomes of the outcome of `ParseAccess`.
abbrev of_parsed : {Claims : Type 0} → Option Claims → Answer Claims
of_parsed none = Answer.invalid_token
of_parsed (some claims) = Answer.authenticated claims

module _ {Claims : Type 0} (equal_fold : Text → Text → Bool)
    (parse_access : Text → Option Claims) where
  check_parts : Option (Text × Text) → Answer Claims
  check_parts none = Answer.invalid_header
  check_parts (some (scheme, token)) =
      if equal_fold scheme (codes "bearer")
      then (if token == [] then Answer.invalid_header else of_parsed (parse_access token))
      else Answer.invalid_header

  pub authenticate : Text → Answer Claims
  unfolding check_parts
  authenticate header =
      if header == [] then Answer.missing_header else check_parts (split_space header)

split_cons-some :
    (c : ℕ) (o : Option (Text × Text)) (a b : Text)
    → split_cons c o ≡ some (a, b)
    → (a' : Text) × (a ≡ c ∷ a') × (o ≡ some (a', b))
unfolding split_cons
split_cons-some c none a b h = cc h
split_cons-some c (some (x, y)) a b h =
    let same = some-injective (c ∷ x, y) (a, b) h in
    (x, sym (ap (λ (p : Text × Text). p.0) same), ap (λ (p : Text × Text). some (x, p.1)) same)

split_space-joined :
    (h a b : Text)
    → split_space h ≡ some (a, b)
    → (h ≡ a ++ b' ' ∷ b) × (any (λ c. c == b' ') a ≡ false)
unfolding split_space
split_space-joined [] a b e = cc e
split_space-joined (c ∷ s) a b e = elim (Bool-cases (c == b' ')) [
  | inl f ↦
      let same = some-injective ([], s) (a, b) (rw f at e) in
      let empty : [] ≡ a = ap (λ (p : Text × Text). p.0) same in
      (
        ap (λ (x : ℕ). x ∷ s) ((nat_beq_iff c b' ').0 f)
            ∙ ap₂ (λ (x y : Text). x ++ b' ' ∷ y) empty (ap (λ (p : Text × Text). p.1) same),
        ap (any (λ c. c == b' ')) (sym empty),
      )
  | inr f ↦
      let (a', start, rest) = split_cons-some c (split_space s) a b (rw f at e) in
      let (joined, spaceless) = split_space-joined s a' b rest in
      (
        ap (λ (x : Text). c ∷ x) joined ∙ ap (λ (x : Text). x ++ b' ' ∷ b) (sym start),
        ap (any (λ c. c == b' ')) start ∙ ground (arith, f, spaceless),
      )
]

joined-split_space :
    (a b : Text) → any (λ c. c == b' ') a ≡ false → split_space (a ++ b' ' ∷ b) ≡ some (a, b)
unfolding split_space split_cons
joined-split_space [] b e = refl
joined-split_space (c ∷ a) b e = ground (arith, joined-split_space a b)

-- What a header must be for the claims to pass.
pub record IsBearer {Claims : Type 0} (equal_fold : Text → Text → Bool)
    (parse_access : Text → Option Claims) (header : Text) (claims : Claims) : Type 0 where
  pub scheme : Text
  pub token : Text
  pub joined : header ≡ scheme ++ b' ' ∷ token
  pub spaceless : any (λ c. c == b' ') scheme ≡ false
  pub bearer : equal_fold scheme (codes "bearer") ≡ true
  pub nonempty : token ≢ []
  pub verified : parse_access token ≡ some claims

module _ {Claims : Type 0} where
  missing-ne-passed : (c : Claims) → Answer.missing_header ≡ Answer.authenticated c → ⊥
  missing-ne-passed c h = cc h

  unparsed-ne-passed : (c : Claims) → Answer.invalid_header ≡ Answer.authenticated c → ⊥
  unparsed-ne-passed c h = cc h

  of_parsed-passed :
      (o : Option Claims) (c : Claims) → of_parsed o ≡ Answer.authenticated c → o ≡ some c
  of_parsed-passed none c h = cc h
  of_parsed-passed (some d) c h = cc h

joined-full : (scheme token : Text) → (scheme ++ b' ' ∷ token == []) ≡ false
unfolding list_beq
joined-full [] token = refl
joined-full (c ∷ scheme) token = refl

full-token : (token : Text) → token ≢ [] → (token == []) ≡ false
unfolding list_beq
full-token [] h = absurd (h refl)
full-token (c ∷ token) h = refl

module _ {Claims : Type 0} (equal_fold : Text → Text → Bool)
    (parse_access : Text → Option Claims) where
  check_parts-passed :
      (o : Option (Text × Text)) (claims : Claims)
      → check_parts equal_fold parse_access o ≡ Answer.authenticated claims
      → (scheme token : Text) × (o ≡ some (scheme, token))
        × (equal_fold scheme (codes "bearer") ≡ true)
        × (token ≢ [])
        × (parse_access token ≡ some claims)
  unfolding check_parts
  check_parts-passed none claims h = cc h
  check_parts-passed (some (scheme, token)) claims h =
      elim (Bool-cases (equal_fold scheme (codes "bearer"))) [
        | inr e ↦ absurd (unparsed-ne-passed claims (rw e at h))
        | inl e ↦ elim (Bool-cases (token == [])) [
          | inl f ↦ absurd (unparsed-ne-passed claims (rw f at (rw e at h)))
          | inr f ↦ (
            scheme,
            token,
            refl,
            e,
            λ empty. cc (f, (list_beq_iff token []).1 empty),
            of_parsed-passed (parse_access token) claims (rw f at (rw e at h)),
          )
        ]
      ]

  bearer-passed :
      (scheme token : Text) (claims : Claims)
      → any (λ c. c == b' ') scheme ≡ false
      → equal_fold scheme (codes "bearer") ≡ true
      → (token == []) ≡ false
      → parse_access token ≡ some claims
      → authenticate equal_fold parse_access (scheme ++ b' ' ∷ token) ≡ Answer.authenticated claims
  unfolding authenticate check_parts
  bearer-passed scheme token claims spaceless bearer full verified =
      rw (joined-full scheme token)
        (rw (joined-split_space scheme token spaceless) (rw bearer (rw full (rw verified refl))))

  -- `Auth` lets a request through with some claims exactly when its header is a scheme without
  -- a blank that equals "bearer" under case folding, one blank, and a token that is not empty
  -- and that verifies to those claims.
  pub authenticate_iff :
      (header : Text) (claims : Claims)
      → (authenticate equal_fold parse_access header ≡ Answer.authenticated claims)
        ↔ IsBearer equal_fold parse_access header claims
  unfolding authenticate
  authenticate_iff header claims = (
    λ h. elim (Bool-cases (header == [])) [
      | inl e ↦ absurd (missing-ne-passed claims (rw e at h))
      | inr e ↦
          let (scheme, token, parts, bearer, nonempty, verified) =
            check_parts-passed (split_space header) claims (rw e at h) in
          let (joined, spaceless) = split_space-joined header scheme token parts in
          record {
            scheme = scheme;
            token = token;
            joined = joined;
            spaceless = spaceless;
            bearer = bearer;
            nonempty = nonempty;
            verified = verified;
          }
    ],
    λ b.
        subst (λ (h : Text). authenticate equal_fold parse_access h ≡ Answer.authenticated claims)
          (sym b.joined)
          (bearer-passed b.scheme b.token claims b.spaceless b.bearer
            (full-token b.token b.nonempty) b.verified),
  )
