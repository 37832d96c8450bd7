-- ===== src/Response/Laws.antt =====
-- What an error response discloses.
use mathlib.Core.Path.{subst}
use masterfabric_backend.Prelude.{◌≡◌, refl, inl, inr, String, some, Option-cases}
use masterfabric_backend.Errors.{
  Code, Error, domain, domain_by, wrap, plain, no_rows, pg_error, DomainError, as_domain,
}
use masterfabric_backend.Response.{map_status, code_text, respond, error_response}

-- The chain of causes reaches a domain error, this one first, under wrappings alone.
pub data Outermost : Error → Code → String → Type 0 where
  bare : (c : Code) (m : String) → Outermost (domain c m) c m
  caused : (c : Code) (m : String) (cause : Error) → Outermost (domain_by c m cause) c m
  wrapped :
      {e : Error} {c : Code} {m : String} (text : String)
      → Outermost e c m
      → Outermost (wrap text e) c m

as_domain-Outermost :
    {e : Error} {c : Code} {m : String}
    → Outermost e c m
    → as_domain e ≡ some (record { code = c; message = m })
unfolding as_domain
as_domain-Outermost (bare c m) = refl
as_domain-Outermost (caused c m cause) = refl
as_domain-Outermost (wrapped text o) = as_domain-Outermost o

some-injective : {A : Type 0} {a b : A} → some a ≡ some b → a ≡ b
some-injective h = cc h

Outermost-as_domain :
    (e : Error) (de : DomainError) → as_domain e ≡ some de → Outermost e de.code de.message
unfolding as_domain
Outermost-as_domain (domain c m) de h =
    subst (λ (d : DomainError). Outermost (domain c m) d.code d.message) (some-injective h)
      (bare c m)
Outermost-as_domain (domain_by c m cause) de h =
    subst (λ (d : DomainError). Outermost (domain_by c m cause) d.code d.message) (some-injective h)
      (caused c m cause)
Outermost-as_domain (wrap text e) de h = wrapped text (Outermost-as_domain e de h)
Outermost-as_domain (plain m) de h = cc
Outermost-as_domain no_rows de h = cc
Outermost-as_domain (pg_error code) de h = cc

-- An error whose chain reaches a domain error through wrappings is answered with the status, the
-- code and the message of that domain error, whatever texts wrap it and whatever lies below it;
-- every other error is answered with status 500 and a fixed message.
pub error_response_discloses :
    (e : Error)
    → ((c : Code) (m : String)
        → Outermost e c m
        → error_response e ≡ record { status = map_status c; code = code_text c; message = m })
      × (((c : Code) (m : String) → Outermost e c m → ⊥)
          → error_response e
            ≡ record { status = 500; code = "INTERNAL"; message = "an internal error occurred" })
unfolding error_response respond code_text
error_response_discloses e = (
  λ c m o. rw (as_domain-Outermost o) refl,
  λ h. elim (Option-cases (as_domain e)) [
    | inl o ↦ rw o refl
    | inr (de, o) ↦ absurd (h de.code de.message (Outermost-as_domain e de o))
  ],
)
