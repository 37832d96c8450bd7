-- ===== src/Http/RequestId.antt =====
-- internal/shared/middleware/requestid.go. A header is the list of its bytes; the uuid that
-- replaces it is a parameter.
use masterfabric_backend.Prelude.{
  ◌≤◌, ◌≡◌, refl, ◌≢◌, inl, inr, Bool, true, false, ◌||◌, not, [], ◌∷◌, All, length, ltb,
  Bool-cases, ◌==◌, nat_eq, list_eq, list_beq, list_beq_iff, if◌then◌else◌, arith,
}
use masterfabric_backend.Prelude.Text.{Text}

pub is_printable_ascii : Text → Bool
is_printable_ascii [] = true
is_printable_ascii (c ∷ s) = if ltb c 0x20 || ltb 0x7e c then false else is_printable_ascii s

pub request_id : Text → Text → Text
request_id fresh header =
    if header == [] || ltb 128 (length header) || not (is_printable_ascii header)
    then fresh
    else header

-- An id that may be logged and sent back: one to 128 bytes, from blank to tilde.
pub record IsClean (id : Text) : Type 0 where
  pub nonempty : id ≢ []
  pub short : length id ≤ 128
  pub printable : All (λ c. (0x20 ≤ c) × (c ≤ 0x7e)) id

printable-All : (s : Text) → is_printable_ascii s ≡ true → All (λ c. (0x20 ≤ c) × (c ≤ 0x7e)) s
unfolding is_printable_ascii
printable-All [] h = tt
printable-All (c ∷ s) h = (ground arith, printable-All s (ground arith))

All-printable : (s : Text) → All (λ c. (0x20 ≤ c) × (c ≤ 0x7e)) s → is_printable_ascii s ≡ true
unfolding is_printable_ascii
All-printable [] h = refl
All-printable (c ∷ s) (p, h) = ground (arith, All-printable s h)

full : (header : Text) → header ≢ [] → (header == []) ≡ false
unfolding list_beq
full [] h = absurd (h refl)
full (c ∷ header) h = refl

-- The id of a request is clean where the fresh one is, whatever the client sent, and it is what
-- the client sent where that is clean.
pub request_id-IsClean :
    (fresh header : Text)
    → IsClean fresh
    → IsClean (request_id fresh header) × (IsClean header → request_id fresh header ≡ header)
unfolding request_id
request_id-IsClean fresh header f = (
  elim (Bool-cases (header == [] || ltb 128 (length header) || not (is_printable_ascii header))) [
    | inl e ↦ rw e f
    | inr e ↦ rw e (record {
      nonempty = λ empty. ground (arith, e, (list_beq_iff header []).1 empty);
      short = ground (arith, e);
      printable = printable-All header (ground (arith, e));
    })
  ],
  λ h. ground (arith, h.short, All-printable header h.printable, full header h.nonempty),
)
