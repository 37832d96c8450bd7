-- ===== src/Table/Unique.antt =====
-- A column without repetitions, and references that lead to a row.
use masterfabric_backend.Prelude.{
  ◌≡◌, refl, sym, ap, ◌∙◌, inl, inr, Bool, true, false, not, ◌&&◌, List, [], ◌∷◌, ◌++◌, arith,
  if◌then◌else◌, any, any-append, Bool-cases, Eq, ◌==◌,
}
use masterfabric_backend.Table.{update}

module _ {A K : Type 0} ⦃e : Eq K⦄ (key : A → K) where
  -- No two rows have the same key.
  abbrev pub UniqueBy : List A → Type 0
  UniqueBy [] = Unit
  UniqueBy (x ∷ xs) = (any (λ y. key y == key x) xs ≡ false) × UniqueBy xs

  pub UniqueBy-snoc :
      (xs : List A) (x : A)
      → UniqueBy xs
      → any (λ y. key y == key x) xs ≡ false
      → UniqueBy (xs ++ x ∷ [])
  UniqueBy-snoc [] x u h = (refl, tt)
  UniqueBy-snoc (y ∷ xs) x (fresh, u) h = (
    ground (
      arith,
      any-append (λ z. key z == key y) xs (x ∷ []),
      e.equal_iff (key x) (key y),
      e.equal_iff (key y) (key x),
    ),
    UniqueBy-snoc xs x u (ground arith),
  )

  any-update_key :
      (q : A → Bool) (f : A → A) (xs : List A) (k : K)
      → ((a : A) → key (f a) ≡ key a)
      → any (λ y. key y == k) (update q f xs) ≡ any (λ y. key y == k) xs
  unfolding update
  any-update_key q f [] k keep = refl
  any-update_key q f (x ∷ xs) k keep =
      ground (arith, ap (λ (j : K). j == k) (keep x), any-update_key q f xs k keep)

  pub UniqueBy-update :
      (q : A → Bool) (f : A → A) (xs : List A)
      → ((a : A) → key (f a) ≡ key a)
      → UniqueBy xs
      → UniqueBy (update q f xs)
  unfolding update
  UniqueBy-update q f [] keep u = tt
  UniqueBy-update q f (x ∷ xs) keep (fresh, u) = (
    ap (λ (k : K). any (λ y. key y == k) (update q f xs)) (same (q x))
        ∙ any-update_key q f xs (key x) keep
        ∙ fresh,
    UniqueBy-update q f xs keep u,
  )
    where
      same : (b : Bool) → key (if b then f x else x) ≡ key x
      same true = keep x
      same false = refl

  -- One row at most may take a new key that no other row has.
  module _ (is_row : A → Bool) (f : A → A) (k : K) (set : (a : A) → key (f a) ≡ k) where
    pub update_none : (xs : List A) → any is_row xs ≡ false → update is_row f xs ≡ xs
    unfolding update
    update_none [] h = refl
    update_none (x ∷ xs) h = ground (arith, update_none xs)

    -- A key that no row has, nor is the new one, is not there after the write.
    pub any-update_fresh :
        (xs : List A) (j : K)
        → (k == j) ≡ false
        → any (λ y. key y == j) xs ≡ false
        → any (λ y. key y == j) (update is_row f xs) ≡ false
    unfolding update
    any-update_fresh [] j n h = refl
    any-update_fresh (x ∷ xs) j n h =
        ground (arith, set x, ap (λ (i : K). i == j) (set x), any-update_fresh xs j n)

    pub any-others :
        (xs : List A)
        → any is_row xs ≡ false
        → any (λ y. not (is_row y) && key y == k) xs ≡ false
        → any (λ y. key y == k) xs ≡ false
    any-others [] r h = refl
    any-others (x ∷ xs) r h = ground (arith, any-others xs)

module _ {A K J : Type 0} ⦃e : Eq K⦄ ⦃d : Eq J⦄ (key : A → K) (id : A → J) (j : J) (f : A → A)
    (k : K) (set : (a : A) → key (f a) ≡ k) where
  -- The row of one id may take a key that no other row has.
  pub UniqueBy-set :
      (xs : List A)
      → UniqueBy id xs
      → UniqueBy key xs
      → any (λ y. not (id y == j) && key y == k) xs ≡ false
      → UniqueBy key (update (λ y. id y == j) f xs)
  unfolding update
  UniqueBy-set [] i u free = tt
  UniqueBy-set (x ∷ xs) (only, i) (fresh, u) free = elim (Bool-cases (id x == j)) [
    | inl row ↦
        let none_left : any (λ y. id y == j) xs ≡ false =
          ap (λ (z : J). any (λ y. id y == z) xs) (sym ((d.equal_iff (id x) j).0 row)) ∙ only in
        let free_left : any (λ y. key y == k) xs ≡ false =
          any-others key (λ y. id y == j) f k set xs none_left (ground arith) in
        rw (row, update_none key (λ y. id y == j) f k set xs none_left, set) (free_left, u)
    | inr other ↦ rw other (
      any-update_fresh key (λ y. id y == j) f k set xs (key x)
          (ground (arith, e.equal_iff k (key x), e.equal_iff (key x) k)) fresh,
      UniqueBy-set xs i u (ground arith),
    )
  ]
