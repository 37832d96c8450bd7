-- ===== src/Table/Laws.antt =====
-- How reading a table answers after a write.
use masterfabric_backend.Prelude.{
  ◌≡◌, refl, sym, ap, ◌∙◌, inl, inr, Bool, true, false, none, some, List, [], ◌∷◌, ◌++◌, Memᴰ,
  arith, if◌then◌else◌, any, Bool-cases, All,
}
use masterfabric_backend.Table.{find, update}

module _ {A : Type 0} where
  pub find-eq-some :
      (p : A → Bool) (xs : List A) {a : A} → find p xs ≡ some a → Memᴰ a xs × (p a ≡ true)
  unfolding find
  find-eq-some p [] h = cc
  find-eq-some p (x ∷ xs) {a} h = elim (Bool-cases (p x)) [
    | inl e ↦ let same : x ≡ a = ground arith in (Memᴰ.head (sym same), sym (ap p same) ∙ e)
    | inr e ↦ let (m, q) = find-eq-some p xs {a = a} (ground arith) in (Memᴰ.tail m, q)
  ]

  pub find-eq-none : (p : A → Bool) (xs : List A) → find p xs ≡ none → any p xs ≡ false
  unfolding find
  find-eq-none p [] h = refl
  find-eq-none p (x ∷ xs) h = ground (arith, find-eq-none p xs)

  pub find-none_of_any : (p : A → Bool) (xs : List A) → any p xs ≡ false → find p xs ≡ none
  unfolding find
  find-none_of_any p [] h = refl
  find-none_of_any p (x ∷ xs) h = ground (arith, find-none_of_any p xs)

  -- A row that is appended is not seen where an earlier one answers.
  pub find-append_some :
      (p : A → Bool) (xs ys : List A) {a : A} → find p xs ≡ some a → find p (xs ++ ys) ≡ some a
  unfolding find
  find-append_some p [] ys h = cc
  find-append_some p (x ∷ xs) ys {a} h = ground (arith, find-append_some p xs ys {a = a})

  pub find-append_none :
      (p : A → Bool) (xs ys : List A) → find p xs ≡ none → find p (xs ++ ys) ≡ find p ys
  unfolding find
  find-append_none p [] ys h = refl
  find-append_none p (x ∷ xs) ys h = ground (arith, find-append_none p xs ys)

  -- The first row, after a write that changes no answer of the test.
  pub find-update :
      (p q : A → Bool) (f : A → A) (xs : List A)
      → ((a : A) → p (f a) ≡ p a)
      → {a : A} → find p xs ≡ some a
      → find p (update q f xs) ≡ some (if q a then f a else a)
  unfolding find update
  find-update p q f [] keep h = cc
  find-update p q f (x ∷ xs) keep {a} h = ground (arith, keep x, find-update p q f xs keep {a = a})

  pub any-update :
      (p q : A → Bool) (f : A → A) (xs : List A)
      → ((a : A) → p (f a) ≡ p a)
      → any p (update q f xs) ≡ any p xs
  unfolding update
  any-update p q f [] keep = refl
  any-update p q f (x ∷ xs) keep = ground (arith, keep x, any-update p q f xs keep)

  pub All-update :
      (P : A → Type 0) (q : A → Bool) (f : A → A) (xs : List A)
      → ((a : A) → P a → P (f a))
      → All P xs
      → All P (update q f xs)
  unfolding update
  All-update P q f [] keep h = tt
  All-update P q f (x ∷ xs) keep (px, h) = elim (Bool-cases (q x)) [
    | inl e ↦ rw e (keep x px, All-update P q f xs keep h)
    | inr e ↦ rw e (px, All-update P q f xs keep h)
  ]

  -- Every row that the test selects has been rewritten.
  pub All-update_hit :
      (P : A → Type 0) (q : A → Bool) (f : A → A) (xs : List A)
      → ((a : A) → q a ≡ true → P (f a))
      → ((a : A) → q a ≡ false → P a)
      → All P (update q f xs)
  unfolding update
  All-update_hit P q f [] hit miss = tt
  All-update_hit P q f (x ∷ xs) hit miss = elim (Bool-cases (q x)) [
    | inl e ↦ rw e (hit x e, All-update_hit P q f xs hit miss)
    | inr e ↦ rw e (miss x e, All-update_hit P q f xs hit miss)
  ]
