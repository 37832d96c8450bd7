-- ===== src/Monitoring/Report/Joins.antt =====
-- The joined rows of the report are the events, each once.
use mathlib.Core.Path.{ap₂}
use masterfabric_backend.Prelude.{
  ℕ, ◌≤◌, ◌≡◌, refl, sym, ap, ◌∙◌, inl, inr, Bool, true, false, Bool-cases, none, some, List, [],
  ◌∷◌, ◌++◌, any, All, length, Eq, ◌==◌, nat_eq, list_eq, arith, ◌||◌, if◌then◌else◌,
}
use masterfabric_backend.Prelude.Text.{Text}
use masterfabric_backend.Table.{select}
use masterfabric_backend.Table.Unique.{UniqueBy}
use masterfabric_backend.Llm.Model.{Session, InferenceEvent, DecisionScore}
use masterfabric_backend.Llm.Store.{session_with_id, score_of_event}
use masterfabric_backend.Monitoring.Report.Rows.{
  JoinedRow, scored_rows, or_null, left_join, joined, column, sum_of, of_model,
}

select-none : {A : Type 0} (p : A → Bool) (xs : List A) → any p xs ≡ false → select p xs ≡ []
unfolding select
select-none p [] h = refl
select-none p (x ∷ xs) h = ground (arith, select-none p xs)

module _ {A K : Type 0} ⦃e : Eq K⦄ (key : A → K) (k : K) where
  -- A key that is there is there once.
  select-one :
      (xs : List A)
      → UniqueBy key xs
      → any (λ y. key y == k) xs ≡ true
      → (x : A) × (select (λ y. key y == k) xs ≡ x ∷ [])
  unfolding select
  select-one [] u h = cc h
  select-one (x ∷ xs) (fresh, u) h = elim (Bool-cases (key x == k)) [
    | inr other ↦ let (y, found) = select-one xs u (rw other at h) in (y, rw other found)
    | inl hit ↦
        let rest : any (λ y. key y == k) xs ≡ false =
          ap (λ (j : K). any (λ y. key y == j) xs) (sym ((e.equal_iff (key x) k).0 hit)) ∙ fresh in
        (x, rw hit (ap (λ (l : List A). x ∷ l) (select-none (λ y. key y == k) xs rest)))
  ]

select-append :
    {A : Type 0} (p : A → Bool) (xs ys : List A) → select p (xs ++ ys) ≡ select p xs ++ select p ys
unfolding select
select-append p [] ys = refl
select-append p (x ∷ xs) ys = elim (Bool-cases (p x)) [
  | inl e ↦ rw e (ap (λ (l : List _). x ∷ l) (select-append p xs ys))
  | inr e ↦ rw e (select-append p xs ys)
]

pub select-swap :
    {A : Type 0} (p q : A → Bool) (xs : List A) → select p (select q xs) ≡ select q (select p xs)
unfolding select
select-swap p q [] = refl
select-swap p q (x ∷ xs) = ground (arith, select-swap p q xs)

-- The event's session has the model; every event has where no model is asked for.
pub is_in_model : List Session → Text → InferenceEvent → Bool
is_in_model sessions model e =
    model == []
    || any (λ (s : Session). s.model_id == model) (select (session_with_id e.session_id) sessions)

or_last : (a b : Bool) → (a || (b || false)) ≡ (a || b)
or_last true b = refl
or_last false true = refl
or_last false false = refl

head_if :
    {A : Type 0} (b c : Bool) (x : A) (xs : List A)
    → c ≡ b
    → (if b then x ∷ [] else []) ++ xs ≡ (if c then x ∷ xs else xs)
head_if true c x xs h = rw h refl
head_if false c x xs h = rw h refl

module _ {F : Type 0} where
  abbrev event_of : JoinedRow F → InferenceEvent
  event_of row = row.event

  one_row :
      (row : JoinedRow F) (model : Text)
      → column event_of (select (of_model model) (row ∷ []))
        ≡ (if model == [] || row.session.model_id == model then row.event ∷ [] else [])
  unfolding select column
  one_row row model = elim (Bool-cases (model == [] || row.session.model_id == model)) [
    | inl e ↦ rw e refl
    | inr e ↦ rw e refl
  ]

  column-append :
      {B : Type 0} (f : JoinedRow F → B) (xs ys : List (JoinedRow F))
      → column f (xs ++ ys) ≡ column f xs ++ column f ys
  unfolding column
  column-append f [] ys = refl
  column-append f (x ∷ xs) ys = ap (λ (l : List _). f x ∷ l) (column-append f xs ys)

  -- The row of an event, if its session has the model.
  left_join-model :
      (e : InferenceEvent) (s : Session) (ds : List (DecisionScore F)) (model : Text)
      → UniqueBy (λ (d : DecisionScore F). d.event_id) ds
      → column event_of (select (of_model model) (left_join e ds (s ∷ [])))
        ≡ (if model == [] || s.model_id == model then e ∷ [] else [])
  unfolding left_join or_null scored_rows
  left_join-model e s ds model u = elim (Bool-cases (any (score_of_event e.id) ds)) [
    | inr nobody ↦
        rw (select-none (score_of_event e.id) ds nobody)
          (one_row (record { event = e; session = s; score = none }) model)
    | inl hit ↦
        let (d, one) = select-one (λ (d : DecisionScore F). d.event_id) e.id ds u hit in
        rw one (one_row (record { event = e; session = s; score = some d }) model)
  ]

  -- The joined rows of a model are the events in its sessions, each once, in their order.
  pub joined-events :
      (events : List InferenceEvent) (sessions : List Session) (ds : List (DecisionScore F))
      (model : Text)
      → UniqueBy (λ (s : Session). s.id) sessions
      → UniqueBy (λ (d : DecisionScore F). d.event_id) ds
      → All (λ (e : InferenceEvent). any (session_with_id e.session_id) sessions ≡ true) events
      → column event_of (select (of_model model) (joined events sessions ds))
        ≡ select (is_in_model sessions model) events
  unfolding joined column select is_in_model
  joined-events [] sessions ds model us ud h = refl
  joined-events (e ∷ events) sessions ds model us ud (found, h) =
      let (s, one) = select-one (λ (s : Session). s.id) e.session_id sessions us found in
      let here =
        ap (λ (l : List Session). column event_of (select (of_model model) (left_join e ds l))) one
        ∙ left_join-model e s ds model ud in
      let rest = joined-events events sessions ds model us ud h in
      ap (column event_of) (select-append (of_model model) _ (joined events sessions ds))
      ∙ column-append event_of _ (select (of_model model) (joined events sessions ds))
      ∙ ap₂ (λ (x y : List InferenceEvent). x ++ y) here rest
      ∙ head_if (model == [] || s.model_id == model) (is_in_model sessions model e) e _ (
          ap (λ (l : List Session). model == [] || any (λ (t : Session). t.model_id == model) l) one
          ∙ or_last (model == []) (s.model_id == model))

  pub length-column :
      {B : Type 0} (f : JoinedRow F → B) (xs : List (JoinedRow F))
      → length (column f xs) ≡ length xs
  unfolding column
  length-column f [] = refl
  length-column f (x ∷ xs) = ground (arith, length-column f xs)

  pub sum_of-column :
      {B : Type 0} (f : JoinedRow F → B) (g : B → ℕ) (xs : List (JoinedRow F))
      → sum_of g (column f xs) ≡ sum_of (λ x. g (f x)) xs
  unfolding column sum_of
  sum_of-column f g [] = refl
  sum_of-column f g (x ∷ xs) = ground (arith, sum_of-column f g xs)

  pub select-column :
      {B : Type 0} (f : JoinedRow F → B) (p : B → Bool) (xs : List (JoinedRow F))
      → column f (select (λ x. p (f x)) xs) ≡ select p (column f xs)
  unfolding column select
  select-column f p [] = refl
  select-column f p (x ∷ xs) = elim (Bool-cases (p (f x))) [
    | inl hit ↦ rw hit (ap (λ (l : List _). f x ∷ l) (select-column f p xs))
    | inr miss ↦ rw miss (select-column f p xs)
  ]

  pub length-select_le :
      (p : JoinedRow F → Bool) (xs : List (JoinedRow F)) → length (select p xs) ≤ length xs
  unfolding select
  length-select_le p [] = omega arith
  length-select_le p (x ∷ xs) = ground (arith, length-select_le p xs)
