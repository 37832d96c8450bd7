-- ===== src/Settings/Laws.antt =====
-- Which origins the settings name.
use masterfabric_backend.Prelude.{
  ℕ, ◌≡◌, refl, ◌≢◌, inl, inr, Bool, false, Bool-cases, List, [], ◌∷◌, any, All, arith, ◌==◌,
  nat_eq, list_eq, list_beq_iff,
}
use masterfabric_backend.Prelude.Text.{Text}
use masterfabric_backend.Iam.Email.{trim_space, trim_left, trim_right}
use masterfabric_backend.Iam.Email.Laws.{trim_space_idem}
use masterfabric_backend.Settings.{split_commas, trimmed_parts, parse_origins}

abbrev has_comma : Text → Bool
has_comma = any (λ c. c == b',')

-- An origin as `CORS` can compare it with a request's: not empty, with no blank around it and
-- no comma in it.
pub record IsOrigin (o : Text) : Type 0 where
  pub nonempty : o ≢ []
  pub trimmed : trim_space o ≡ o
  pub single : has_comma o ≡ false

trim_left-comma : (s : Text) → has_comma s ≡ false → has_comma (trim_left s) ≡ false
unfolding trim_left
trim_left-comma [] h = refl
trim_left-comma (c ∷ s) h = ground (arith, trim_left-comma s)

trim_right-comma : (s : Text) → has_comma s ≡ false → has_comma (trim_right s) ≡ false
unfolding trim_right
trim_right-comma [] h = refl
trim_right-comma (c ∷ s) h = ground (arith, trim_right-comma s)

-- The first part with one more letter.
longer_first :
    (c : ℕ) (parts : List Text)
    → (c == b',') ≡ false
    → All (λ p. has_comma p ≡ false) parts
    → All
        (λ p. has_comma p ≡ false)
        (elim parts [ [] ↦ (c ∷ []) ∷ [] | part ∷ rest ↦ (c ∷ part) ∷ rest ])
longer_first c [] other h = (ground arith, tt)
longer_first c (part ∷ rest) other (p, h) = (ground arith, h)

split_commas-single : (s : Text) → All (λ p. has_comma p ≡ false) (split_commas s)
unfolding split_commas
split_commas-single [] = (refl, tt)
split_commas-single (c ∷ s) = elim (Bool-cases (c == b',')) [
  | inl comma ↦ rw comma (refl, split_commas-single s)
  | inr other ↦ rw other (longer_first c (split_commas s) other (split_commas-single s))
]

trimmed-IsOrigin :
    (p : Text) → has_comma p ≡ false → (trim_space p == []) ≡ false → IsOrigin (trim_space p)
unfolding trim_space
trimmed-IsOrigin p h full = record {
  nonempty = λ e. cc (full, (list_beq_iff (trim_space p) []).1 e);
  trimmed = trim_space_idem p;
  single = trim_right-comma (trim_left p) (trim_left-comma p h);
}

trimmed_parts-IsOrigin :
    (parts : List Text) → All (λ p. has_comma p ≡ false) parts → All IsOrigin (trimmed_parts parts)
unfolding trimmed_parts
trimmed_parts-IsOrigin [] h = tt
trimmed_parts-IsOrigin (p ∷ parts) (q, h) = elim (Bool-cases (trim_space p == [])) [
  | inl blank ↦ rw blank (trimmed_parts-IsOrigin parts h)
  | inr full ↦ rw full (trimmed-IsOrigin p q full, trimmed_parts-IsOrigin parts h)
]

-- Whatever CORS_ALLOWED_ORIGINS is, each origin that is allowed by it is not empty, has no blank
-- around it and no comma in it.
pub parse_origins-IsOrigin : (raw : Text) → All IsOrigin (parse_origins raw)
unfolding parse_origins
parse_origins-IsOrigin raw = elim (Bool-cases (trim_space raw == [])) [
  | inl blank ↦ rw blank tt
  | inr full ↦ rw full (trimmed_parts-IsOrigin (split_commas raw) (split_commas-single raw))
]
