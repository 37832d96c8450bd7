-- ===== src/Iam/Email/Laws.antt =====
-- What is left of an email that is normalised.
use mathlib.Core.Path.{subst}
use masterfabric_backend.Prelude.{
  ℕ, ◌≡◌, refl, ap, ◌∙◌, inl, inr, Bool, true, false, ◌&&◌, [], ◌∷◌, ◌++◌, leb, Bool-cases, All,
  All-append_left, All-append_right, if◌then◌else◌, arith,
}
use masterfabric_backend.Prelude.Text.{Text}
use masterfabric_backend.Iam.Email.{
  is_space, trim_left, trim_right, trim_space, lower_rune, to_lower, normalize_email,
}

-- The text is empty or begins with no blank.
abbrev pub StartsPlain : Text → Type 0
StartsPlain [] = Unit
StartsPlain (c ∷ s) = is_space c ≡ false

trim_left-StartsPlain : (s : Text) → StartsPlain (trim_left s)
unfolding trim_left
trim_left-StartsPlain [] = tt
trim_left-StartsPlain (c ∷ s) = elim (Bool-cases (is_space c)) [
  | inl e ↦ rw e (trim_left-StartsPlain s)
  | inr e ↦ rw e e
]

trim_left_of_StartsPlain : (s : Text) → StartsPlain s → trim_left s ≡ s
unfolding trim_left
trim_left_of_StartsPlain [] h = refl
trim_left_of_StartsPlain (c ∷ s) h = rw h

trim_right-StartsPlain : (s : Text) → StartsPlain s → StartsPlain (trim_right s)
unfolding trim_right
trim_right-StartsPlain [] h = tt
trim_right-StartsPlain (c ∷ s) h = ground arith

trim_right_idem : (s : Text) → trim_right (trim_right s) ≡ trim_right s
unfolding trim_right
trim_right_idem [] = refl
trim_right_idem (c ∷ s) = ground (arith, trim_right_idem s)

pub trim_space_idem : (s : Text) → trim_space (trim_space s) ≡ trim_space s
unfolding trim_space
trim_space_idem s =
    ap trim_right (
      trim_left_of_StartsPlain (trim_right (trim_left s))
        (trim_right-StartsPlain (trim_left s) (trim_left-StartsPlain s)))
    ∙ trim_right_idem (trim_left s)

-- The text is empty or ends with no blank.
abbrev pub EndsPlain : Text → Type 0
EndsPlain [] = Unit
EndsPlain (c ∷ []) = is_space c ≡ false
EndsPlain (c ∷ d ∷ s) = EndsPlain (d ∷ s)

abbrev pub Blank : Text → Type 0
Blank = All (λ c. is_space c ≡ true)

-- A letter from A to Z.
abbrev pub is_capital : ℕ → Bool
is_capital c = leb b'A' c && leb c b'Z'

-- The text with the blanks cut off in front of it.
record IsFrontCut (s out : Text) : Type 0 where
  before : Text
  whole : s ≡ before ++ out
  blank : Blank before

trim_left-IsFrontCut : (s : Text) → IsFrontCut s (trim_left s)
unfolding trim_left
trim_left-IsFrontCut [] = record { before = []; whole = refl; blank = tt }
trim_left-IsFrontCut (c ∷ s) = elim (Bool-cases (is_space c)) [
  | inr e ↦ rw e (record { before = []; whole = refl; blank = tt })
  | inl e ↦
      let cut = trim_left-IsFrontCut s in
      rw e (record {
        before = c ∷ cut.before;
        whole = ap (λ (t : Text). c ∷ t) cut.whole;
        blank = (e, cut.blank);
      })
]

-- The text with all the blanks cut off behind it.
record IsBackCut (s out : Text) : Type 0 where
  after : Text
  whole : s ≡ out ++ after
  blank : Blank after
  plain : EndsPlain out

longer-IsBackCut :
    (c : ℕ) (s out : Text)
    → IsBackCut s out
    → IsBackCut
        (c ∷ s)
        (elim out [ [] ↦ if is_space c then [] else c ∷ [] | d ∷ more ↦ c ∷ d ∷ more ])
longer-IsBackCut c s [] cut = elim (Bool-cases (is_space c)) [
  | inl e ↦ rw e (record {
    after = c ∷ cut.after;
    whole = ap (λ (t : Text). c ∷ t) cut.whole;
    blank = (e, cut.blank);
    plain = tt;
  })
  | inr e ↦ rw e (record {
    after = cut.after;
    whole = ap (λ (t : Text). c ∷ t) cut.whole;
    blank = cut.blank;
    plain = e;
  })
]
longer-IsBackCut c s (d ∷ more) cut = record {
  after = cut.after;
  whole = ap (λ (t : Text). c ∷ t) cut.whole;
  blank = cut.blank;
  plain = cut.plain;
}

trim_right-IsBackCut : (s : Text) → IsBackCut s (trim_right s)
unfolding trim_right
trim_right-IsBackCut [] = record { after = []; whole = refl; blank = tt; plain = tt }
trim_right-IsBackCut (c ∷ s) = longer-IsBackCut c s (trim_right s) (trim_right-IsBackCut s)

-- `out` is the middle of the lower-cased email, without the blanks around it and without a
-- capital from A to Z.
pub record IsNormal (lower_wide : ℕ → ℕ) (email out : Text) : Type 0 where
  pub before : Text
  pub after : Text
  pub whole : to_lower lower_wide email ≡ before ++ (out ++ after)
  pub blank_before : Blank before
  pub blank_after : Blank after
  pub plain_start : StartsPlain out
  pub plain_end : EndsPlain out
  pub lowered : All (λ c. is_capital c ≡ false) out

module _ (lower_wide : ℕ → ℕ) (small : (c : ℕ) → is_capital (lower_wide c) ≡ false) where
  lower_rune-small : (c : ℕ) → is_capital (lower_rune lower_wide c) ≡ false
  unfolding lower_rune
  lower_rune-small c = ground (arith, small c)

  to_lower-small : (s : Text) → All (λ c. is_capital c ≡ false) (to_lower lower_wide s)
  unfolding to_lower
  to_lower-small [] = tt
  to_lower-small (c ∷ s) = (lower_rune-small c, to_lower-small s)

  -- A normalised email is what lies between the blanks around the lower-cased one: it begins and
  -- ends with no blank, and has no capital from A to Z where lowering a rune above ASCII gives
  -- none.
  pub normalize_email-IsNormal :
      (email : Text) → IsNormal lower_wide email (normalize_email lower_wide email)
  unfolding normalize_email trim_space
  normalize_email-IsNormal email =
      let s = to_lower lower_wide email in
      let front = trim_left-IsFrontCut s in
      let back = trim_right-IsBackCut (trim_left s) in
      let whole : s ≡ front.before ++ (trim_right (trim_left s) ++ back.after) =
        front.whole ∙ ap (λ (t : Text). front.before ++ t) back.whole in
      record {
        before = front.before;
        after = back.after;
        whole = whole;
        blank_before = front.blank;
        blank_after = back.blank;
        plain_start = trim_right-StartsPlain (trim_left s) (trim_left-StartsPlain s);
        plain_end = back.plain;
        lowered = All-append_left _ (trim_right (trim_left s)) back.after (
            All-append_right _ front.before _
              (subst (All (λ c. is_capital c ≡ false)) whole (to_lower-small email)));
      }
