-- ===== src/World/Inversion.antt =====
-- What a call that was answered has done.
use masterfabric_backend.Prelude.{ℕ, ◌≡◌, ap, refl, ◌⊎◌, inl, inr}
use masterfabric_backend.Errors.{plain}
use masterfabric_backend.Exec.{Result, ok, err}
use masterfabric_backend.World.{Env, World, Fault, advance, call, query}

module _ {env : Env} {A : Type 0} where
  pub query-eq-ok :
      (q : ℕ → World env → Result A × World env) (w : World env) {a : A} {t : World env}
      → query env q w ≡ (ok a, t)
      → q w.step (advance env w) ≡ (ok a, t)
  unfolding query
  query-eq-ok q w {a} {t} = answered (env.fault w.step)
    where
      answered :
          (f : Fault)
          → (let u : Result A × World env = elim f [
            | Fault.healthy ↦ q w.step (advance env w)
            | Fault.refused ↦ (err (plain "connection refused"), advance env w)
            | Fault.lost ↦ (err (plain "connection lost"), (q w.step (advance env w)).1)
          ] in
              u ≡ (ok a, t))
          → q w.step (advance env w) ≡ (ok a, t)
      answered Fault.healthy h = h
      answered Fault.refused h = cc (ap (λ (p : Result A × World env). p.0) h)
      answered Fault.lost h = cc (ap (λ (p : Result A × World env). p.0) h)

  pub query-healthy :
      (q : ℕ → World env → Result A × World env) (w : World env)
      → env.fault w.step ≡ Fault.healthy
      → query env q w ≡ q w.step (advance env w)
  unfolding query
  query-healthy q w h = rw (h, query)

  pub call-eq-ok :
      (f : ℕ → A) (w : World env) {a : A} {t : World env}
      → call env f w ≡ (ok a, t)
      → (f w.step ≡ a) × (advance env w ≡ t)
  unfolding call
  call-eq-ok f w h =
      (cc (ap (λ (p : Result A × World env). p.0) h), ap (λ (p : Result A × World env). p.1) h)

  -- A statement has acted on the world, or has only been counted.
  pub query-world :
      (q : ℕ → World env → Result A × World env) (w : World env)
      → ((query env q w).1 ≡ (q w.step (advance env w)).1) ⊎ ((query env q w).1 ≡ advance env w)
  unfolding query
  query-world q w = cases (env.fault w.step)
    where
      cases :
          (f : Fault)
          → (let u : Result A × World env = elim f [
            | Fault.healthy ↦ q w.step (advance env w)
            | Fault.refused ↦ (err (plain "connection refused"), advance env w)
            | Fault.lost ↦ (err (plain "connection lost"), (q w.step (advance env w)).1)
          ] in
              (u.1 ≡ (q w.step (advance env w)).1) ⊎ (u.1 ≡ advance env w))
      cases Fault.healthy = inl refl
      cases Fault.refused = inr refl
      cases Fault.lost = inl refl
