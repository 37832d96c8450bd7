-- ===== src/Exec/Inversion.antt =====
-- From the outcome of an action to those of its parts.
use mathlib.Core.Path.{ap₂}
use masterfabric_backend.Prelude.{◌≡◌, refl, ap, Bool, true, false, if◌then◌else◌}
use masterfabric_backend.Errors.{Error}
use masterfabric_backend.Exec.{
  Result, ok, err, Exec, pure, raise, lift, attempt, map_err, map_result_err, continue, ◌>>=◌,
}

module _ {S A B : Type 0} where
  continue-eq-ok :
      (r : Result A) (f : A → Exec S B) (s : S) {b : B} {t : S}
      → continue r f s ≡ (ok b, t)
      → (a : A) × (r ≡ ok a) × (f a s ≡ (ok b, t))
  continue-eq-ok (ok a) f s h = (a, refl, h)
  continue-eq-ok (err e) f s h = cc

  pub >>=-eq-ok :
      (m : Exec S A) (f : A → Exec S B) (s : S) {b : B} {t : S}
      → (m >>= f) s ≡ (ok b, t)
      → (a : A) × (u : S) × (m s ≡ (ok a, u)) × (f a u ≡ (ok b, t))
  unfolding ◌>>=◌
  >>=-eq-ok m f s h =
      let (a, e, h') = continue-eq-ok (m s).0 f (m s).1 h in
      (a, (m s).1, ap (λ (r : Result A). (r, (m s).1)) e, h')

  -- The way forward: a part that returned.
  pub >>=-ok :
      (m : Exec S A) (f : A → Exec S B) {s u : S} {a : A} → m s ≡ (ok a, u) → (m >>= f) s ≡ f a u
  unfolding ◌>>=◌
  >>=-ok m f h = ap (λ (p : Result A × S). continue p.0 f p.1) h

  pub >>=-err :
      (m : Exec S A) (f : A → Exec S B) {s u : S} {e : Error}
      → m s ≡ (err e, u)
      → (m >>= f) s ≡ (err e, u)
  unfolding ◌>>=◌
  >>=-err m f h = ap (λ (p : Result A × S). continue p.0 f p.1) h

map_result_err-eq-ok :
    {A : Type 0} (f : Error → Error) (r : Result A) {a : A} → map_result_err f r ≡ ok a → r ≡ ok a
map_result_err-eq-ok f (ok b) h = h
map_result_err-eq-ok f (err e) h = cc

module _ {S A : Type 0} where
  pub map_err-eq-ok :
      (f : Error → Error) (m : Exec S A) (s : S) {a : A} {t : S}
      → map_err f m s ≡ (ok a, t)
      → m s ≡ (ok a, t)
  unfolding map_err
  map_err-eq-ok f m s h =
      ap₂ (λ (r : Result A) (u : S). (r, u))
        (map_result_err-eq-ok f (m s).0 (ap (λ (p : Result A × S). p.0) h))
        (ap (λ (p : Result A × S). p.1) h)

  pub map_err-ok :
      (f : Error → Error) (m : Exec S A) {s t : S} {a : A}
      → m s ≡ (ok a, t)
      → map_err f m s ≡ (ok a, t)
  unfolding map_err
  map_err-ok f m h = ap (λ (p : Result A × S). (map_result_err f p.0, p.1)) h

  pub pure-eq-ok : (a : A) (s : S) {b : A} {t : S} → pure a s ≡ (ok b, t) → (a ≡ b) × (s ≡ t)
  unfolding pure
  pure-eq-ok a s h = (cc (ap (λ (p : Result A × S). p.0) h), ap (λ (p : Result A × S). p.1) h)

  pub lift-eq-ok :
      (r : Result A) (s : S) {b : A} {t : S} → lift r s ≡ (ok b, t) → (r ≡ ok b) × (s ≡ t)
  unfolding lift
  lift-eq-ok r s h = (ap (λ (p : Result A × S). p.0) h, ap (λ (p : Result A × S). p.1) h)

  pub raise-ne-ok : (e : Error) (s : S) {b : A} {t : S} → raise e s ≡ (ok b, t) → ⊥
  unfolding raise
  raise-ne-ok e s h = cc (ap (λ (p : Result A × S). p.0) h)

  pub attempt-eq-ok :
      (m : Exec S A) (s : S) {r : Result A} {t : S} → attempt m s ≡ (ok r, t) → m s ≡ (r, t)
  unfolding attempt
  attempt-eq-ok m s h =
      ap₂ (λ (r : Result A) (u : S). (r, u)) (cc (ap (λ (p : Result (Result A) × S). p.0) h))
        (ap (λ (p : Result (Result A) × S). p.1) h)

  pub attempt-ok : (m : Exec S A) {s t : S} {r : Result A} → m s ≡ (r, t) → attempt m s ≡ (ok r, t)
  unfolding attempt
  attempt-ok m h = ap (λ (p : Result A × S). (ok p.0, p.1)) h

  pub guard-eq-ok :
      (b : Bool) (a : A) (e : Error) (s : S) {c : A} {t : S}
      → (if b then pure {S = S} a else raise e) s ≡ (ok c, t)
      → (b ≡ true) × (a ≡ c) × (s ≡ t)
  guard-eq-ok true a e s h = let (p, q) = pure-eq-ok a s h in (refl, p, q)
  guard-eq-ok false a e s h = absurd (raise-ne-ok e s h)

  -- The other way round: the test must fail.
  pub reject-eq-ok :
      (b : Bool) (a : A) (e : Error) (s : S) {c : A} {t : S}
      → (if b then raise e else pure {S = S} a) s ≡ (ok c, t)
      → (b ≡ false) × (a ≡ c) × (s ≡ t)
  reject-eq-ok true a e s h = absurd (raise-ne-ok e s h)
  reject-eq-ok false a e s h = let (p, q) = pure-eq-ok a s h in (refl, p, q)

  pub err-ne-ok :
      {e : Error} {b : A} {s t : S} → (let x : Result A × S = (err e, s) in x ≡ (ok b, t)) → ⊥
  err-ne-ok h = cc (ap (λ (p : Result A × S). p.0) h)

  -- The two components of an outcome.
  pub ok-injective :
      {a b : A} {s t : S} → (let x : Result A × S = (ok a, s) in x ≡ (ok b, t)) → (a ≡ b) × (s ≡ t)
  ok-injective h = (cc (ap (λ (p : Result A × S). p.0) h), ap (λ (p : Result A × S). p.1) h)

module _ {S A B : Type 0} where
  -- An action that ends in an error does not return.
  pub >>-raise-ne-ok :
      (m : Exec S B) (e : Error) (s : S) {b : A} {t : S}
      → (m >>= λ _. raise {A = A} e) s ≡ (ok b, t)
      → ⊥
  >>-raise-ne-ok m e s h = let (_, u, _, k) = >>=-eq-ok m (λ _. raise e) s h in raise-ne-ok e u k
