-- ===== src/Prelude/Tests.antt =====
-- Boolean tests, the conditional, and equality as an instance.
use Prim.Native.Nat.{ℕ, ◌≤◌, compare, Ordering}
use Prim.Native.String.{String}
use mathlib.Core.Path.{◌≡◌, refl}
use mathlib.Core.Logic.{◌↔◌, ◌⊎◌, inl, inr}
use mathlib.Core.Bool.{Bool, true, false, ◌&&◌, ◌||◌}
use mathlib.Core.Option.{Option, none, some}
use mathlib.Core.List.{List, [], ◌∷◌}
use native.Mathlib.Omega.{arith}
use text.Mathlib.Text.{◌==◌ as str_eq}
use text.Mathlib.TextEquality.{eq_iff}

abbrev pub ltb : ℕ → ℕ → Bool
ltb a b = elim (compare a b) [ Ordering.lt ↦ true | _ ↦ false ]

abbrev pub leb : ℕ → ℕ → Bool
leb a b = elim (compare a b) [ Ordering.gt ↦ false | _ ↦ true ]

abbrev nat_beq : ℕ → ℕ → Bool
nat_beq a b = elim (compare a b) [ Ordering.eq ↦ true | _ ↦ false ]

infix 1 if◌then◌else◌
abbrev pub if◌then◌else◌ {ℓ} : {A : Type ℓ} → Bool → A → A → A
if true then x else y = x
if false then x else y = y

pub leb→le : (a b : ℕ) → leb a b ≡ true → a ≤ b
leb→le a b h = ground arith

pub Bool-cases : (b : Bool) → (b ≡ true) ⊎ (b ≡ false)
Bool-cases true = inl refl
Bool-cases false = inr refl

pub Option-cases {ℓ} : {A : Type ℓ} (o : Option A) → (o ≡ none) ⊎ ((a : A) × (o ≡ some a))
Option-cases none = inl refl
Option-cases (some a) = inr (a, refl)

pub &&-eq-true_iff : (a b : Bool) → ((a && b) ≡ true) ↔ ((a ≡ true) × (b ≡ true))
&&-eq-true_iff a b = ground arith

pub ||-eq-true_iff : (a b : Bool) → ((a || b) ≡ true) ↔ ((a ≡ true) ⊎ (b ≡ true))
||-eq-true_iff a b = ground arith

-- Two tests with the same meaning are one.
pub Bool-ext : (a b : Bool) → (a ≡ true → b ≡ true) → (b ≡ true → a ≡ true) → a ≡ b
Bool-ext a b f g = ground arith

-- Equality that the program tests with `==`.
pub record Eq {ℓ} (A : Type ℓ) : Type ℓ where
  pub equal : A → A → Bool
  pub equal_iff : (x y : A) → (equal x y ≡ true) ↔ (x ≡ y)

infix 50 ◌==◌
abbrev pub ◌==◌ {ℓ} : {A : Type ℓ} ⦃e : Eq A⦄ → A → A → Bool
◌==◌ ⦃e⦄ = e.equal

pub nat_beq_iff : (a b : ℕ) → (nat_beq a b ≡ true) ↔ (a ≡ b)
nat_beq_iff a b = ground arith

instance abbrev pub nat_eq : Eq ℕ
nat_eq = record { equal = nat_beq; equal_iff = nat_beq_iff }

instance abbrev pub string_eq : Eq String
string_eq = record { equal = str_eq; equal_iff = eq_iff }

unfoldable pub list_beq {ℓ} : {A : Type ℓ} ⦃e : Eq A⦄ → List A → List A → Bool
list_beq [] [] = true
list_beq (x ∷ xs) (y ∷ ys) = x == y && list_beq xs ys
list_beq _ _ = false

pub list_beq_iff {ℓ} :
    {A : Type ℓ} ⦃e : Eq A⦄ (xs ys : List A) → (list_beq xs ys ≡ true) ↔ (xs ≡ ys)
unfolding list_beq
list_beq_iff [] [] = ground arith
list_beq_iff [] (y ∷ ys) = ground arith
list_beq_iff (x ∷ xs) [] = ground arith
list_beq_iff ⦃e⦄ (x ∷ xs) (y ∷ ys) = ground (arith, e.equal_iff x y, list_beq_iff xs ys)

abbrev pair_beq {ℓ κ} : {A : Type ℓ} {B : Type κ} ⦃d : Eq A⦄ ⦃e : Eq B⦄ → A × B → A × B → Bool
pair_beq x y = x.0 == y.0 && x.1 == y.1

pub pair_beq_iff {ℓ κ} :
    {A : Type ℓ} {B : Type κ} ⦃d : Eq A⦄ ⦃e : Eq B⦄ (x y : A × B) → (pair_beq x y ≡ true) ↔ (x ≡ y)
pair_beq_iff ⦃d⦄ ⦃e⦄ (a, b) (c, f) = ground (arith, d.equal_iff a c, e.equal_iff b f)

instance abbrev pub pair_eq {ℓ κ} : {A : Type ℓ} {B : Type κ} ⦃d : Eq A⦄ ⦃e : Eq B⦄ → Eq (A × B)
pair_eq = record { equal = pair_beq; equal_iff = pair_beq_iff }

instance abbrev pub list_eq {ℓ} : {A : Type ℓ} ⦃e : Eq A⦄ → Eq (List A)
list_eq = record { equal = list_beq; equal_iff = list_beq_iff }

pub ==-refl {ℓ} : {A : Type ℓ} ⦃e : Eq A⦄ (a : A) → (a == a) ≡ true
==-refl ⦃e⦄ a = (e.equal_iff a a).1 refl
