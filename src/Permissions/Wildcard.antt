-- ===== src/Permissions/Wildcard.antt =====
-- What `isPrefixWildcard` and `matchPermission` decide.
use mathlib.Core.Path.{subst, subst₂}
use masterfabric_backend.Prelude.{
  ℕ, ◌-◌, ◌≡◌, refl, sym, ap, ◌∙◌, ◌≢◌, ◌↔◌, inl, inr, Bool, not, if◌then◌else◌, true, false, ◌&&◌,
  ◌||◌, List, [], ◌∷◌, ◌++◌, Memᴰ, length, get_or, take, drop, length-append, get_or-append_last,
  take-append_length, take-append-drop, last_view, leb, ◌==◌, nat_eq, list_eq, list_beq,
  list_beq_iff, Bool-cases, arith, any_intro, any_elim, any,
}
use masterfabric_backend.Prelude.Text.{Text, codes}
use masterfabric_backend.Permissions.{is_prefix_wildcard, match_permission}

-- The pattern is a stem and a star, the stem is not empty and not ":", and it begins the text.
pub record MatchesStem (pattern want : Text) : Type 0 where
  pub stem : Text
  pub rest : Text
  pub starred : pattern ≡ stem ++ b'*' ∷ []
  pub begins : want ≡ stem ++ rest
  pub nonempty : stem ≢ []
  pub not_colon : stem ≢ codes ":"

starts : Text → Text → Bool
starts prefix want = leb (length prefix) (length want) && take (length prefix) want == prefix

starts-append : (prefix rest : Text) → starts prefix (prefix ++ rest) ≡ true
unfolding starts
starts-append prefix rest = ground (
  arith,
  length-append prefix rest,
  list_beq_iff (take (length prefix) (prefix ++ rest)) prefix,
  take-append_length prefix rest,
)

starts_elim :
    (prefix want : Text) → starts prefix want ≡ true → want ≡ prefix ++ drop (length prefix) want
unfolding starts
starts_elim prefix want h =
    sym (take-append-drop (length prefix) want)
    ∙ ap (λ (l : Text). l ++ drop (length prefix) want)
        ((list_beq_iff (take (length prefix) want) prefix).0 (ground arith))

length-snoc_pred : (stem : Text) (c : ℕ) → length (stem ++ c ∷ []) - 1 ≡ length stem
length-snoc_pred stem c = omega (arith, length-append stem (c ∷ []))

-- A pattern with the last byte split off.
wildcard-snoc :
    (stem : Text) (c : ℕ) (want : Text)
    → is_prefix_wildcard (stem ++ c ∷ []) want ≡ (
        if length stem == 0 || not (c == b'*')
        then false
        else (if length stem == 0 || stem == codes ":" then false else starts stem want))
unfolding is_prefix_wildcard starts
wildcard-snoc stem c want =
    rw length-snoc_pred
      (rw get_or-append_last (rw take-append_length (ground (arith, length-append stem (c ∷ [])))))

length-eq-0 : (xs : Text) → length xs ≡ 0 → xs ≡ []
length-eq-0 [] h = refl
length-eq-0 (x ∷ xs) h = absurd (omega arith)

not-wildcard-nil : (want : Text) → is_prefix_wildcard [] want ≡ false
unfolding is_prefix_wildcard
not-wildcard-nil want = refl

MatchesStem-snoc :
    (stem : Text) (c : ℕ) (want : Text)
    → is_prefix_wildcard (stem ++ c ∷ []) want ≡ true
    → MatchesStem (stem ++ c ∷ []) want
MatchesStem-snoc stem c want h =
    let e : (if length stem == 0 || not (c == b'*')
          then false
          else (if length stem == 0 || stem == codes ":" then false else starts stem want))
        ≡ true =
      sym (wildcard-snoc stem c want) ∙ h in
    record {
      stem = stem;
      rest = drop (length stem) want;
      starred = ap (λ (d : ℕ). stem ++ d ∷ []) (ground arith);
      begins = starts_elim stem want (ground arith);
      nonempty = λ p. ground (arith, ap (λ (l : Text). length l) p);
      not_colon = λ p. ground (arith, (list_beq_iff stem (codes ":")).1 p);
    }

wildcard-stem :
    (stem rest : Text)
    → stem ≢ []
    → stem ≢ codes ":"
    → is_prefix_wildcard (stem ++ b'*' ∷ []) (stem ++ rest) ≡ true
wildcard-stem stem rest p q = rw wildcard-snoc (
    ground (
      arith,
      starts-append stem rest,
      λ (e : length stem ≡ 0). p (length-eq-0 stem e),
      λ (e : list_beq stem (codes ":") ≡ true). q ((list_beq_iff stem (codes ":")).0 e),
    ))

wildcard-MatchesStem :
    (pattern want : Text) → is_prefix_wildcard pattern want ≡ true → MatchesStem pattern want
wildcard-MatchesStem pattern want h = elim (last_view pattern) [
  | inl e ↦ cc (not-wildcard-nil want, ap (λ (l : Text). is_prefix_wildcard l want) e)
  | inr (ys, y, e) ↦
      subst (λ (l : Text). MatchesStem l want) (sym e)
        (MatchesStem-snoc ys y want (ap (λ (l : Text). is_prefix_wildcard l want) (sym e) ∙ h))
]

-- `isPrefixWildcard` decides `MatchesStem`: the pattern is a stem and a final star, the stem is
-- neither empty nor ":", and the wanted permission begins with the stem.
pub is_prefix_wildcard_iff :
    (pattern want : Text) → (is_prefix_wildcard pattern want ≡ true) ↔ MatchesStem pattern want
is_prefix_wildcard_iff pattern want = (
  wildcard-MatchesStem pattern want,
  λ m.
      subst₂ (λ (p w : Text). is_prefix_wildcard p w ≡ true) (sym m.starred) (sym m.begins)
        (wildcard-stem m.stem m.rest m.nonempty m.not_colon),
)

-- One granted permission covers a wanted one.
pub data Covers (g want : Text) : Type 0 where
  everything : g ≡ codes "*" → Covers g want
  exact : g ≡ want → Covers g want
  wildcard : MatchesStem g want → Covers g want

-- The test that `matchPermission` makes on one granted permission.
pub covers : Text → Text → Bool
covers g want = g == codes "*" || (g == want || is_prefix_wildcard g want)

covers_elim : (g want : Text) → covers g want ≡ true → Covers g want
unfolding covers
covers_elim g want h = elim (Bool-cases (g == codes "*")) [
  | inl e ↦ everything ((list_beq_iff g (codes "*")).0 e)
  | inr e ↦ elim (Bool-cases (g == want)) [
    | inl e' ↦ exact ((list_beq_iff g want).0 e')
    | inr e' ↦ wildcard (wildcard-MatchesStem g want (ground arith))
  ]
]

covers_intro : (g want : Text) → Covers g want → covers g want ≡ true
unfolding covers
covers_intro g want (everything e) = ground (arith, (list_beq_iff g (codes "*")).1 e)
covers_intro g want (exact e) = ground (arith, (list_beq_iff g want).1 e)
covers_intro g want (wildcard m) = ground (arith, (is_prefix_wildcard_iff g want).1 m)

pub match_permission-any :
    (granted : List Text) (want : Text)
    → match_permission granted want ≡ any (λ g. covers g want) granted
unfolding match_permission covers
match_permission-any [] want = refl
match_permission-any (g ∷ granted) want = ground (arith, match_permission-any granted want)

-- `matchPermission` is true exactly when some granted permission is "*", is the wanted one, or
-- is a stem and a star (the stem neither empty nor ":") with the wanted one beginning with the stem.
pub match_permission_iff :
    (granted : List Text) (want : Text)
    → (match_permission granted want ≡ true) ↔ ((g : Text) × Memᴰ g granted × Covers g want)
match_permission_iff granted want = (
  λ h.
      let (g, m, c) =
        any_elim (λ g. covers g want) granted (sym (match_permission-any granted want) ∙ h) in
      (g, m, covers_elim g want c),
  λ (g, m, c).
      match_permission-any granted want ∙ any_intro (λ g. covers g want) m (covers_intro g want c),
)

not-star-snoc : (front : Text) (c : ℕ) → c ≢ b'*' → list_beq (front ++ c ∷ []) (codes "*") ≡ false
not-star-snoc front c h = elim (Bool-cases (list_beq (front ++ c ∷ []) (codes "*"))) [
  | inr e ↦ e
  | inl e ↦
      let p : front ++ c ∷ [] ≡ b'*' ∷ [] = (list_beq_iff (front ++ c ∷ []) (codes "*")).0 e in
      let empty : length front ≡ 0 =
        omega (arith, length-append front (c ∷ []), ap (λ (l : Text). length l) p) in
      absurd (
        h (
          ap (λ (l : Text). get_or l 0 0)
            (sym (ap (λ (l : Text). l ++ c ∷ []) (length-eq-0 front empty)) ∙ p)))
]

-- A pattern whose last byte is not a star grants the permission that it spells and no other,
-- whatever it begins with.
pub match_permission-unstarred :
    (front : Text) (c : ℕ) (want : Text)
    → c ≢ b'*'
    → match_permission ((front ++ c ∷ []) ∷ []) want ≡ (front ++ c ∷ [] == want)
unfolding match_permission
match_permission-unstarred front c want h =
    rw wildcard-snoc (ground (arith, not-star-snoc front c h))
