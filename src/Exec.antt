-- ===== src/Exec.antt =====
-- A Go function that calls services and may return an error: the state comes back beside the
-- error too, since what was written before it stays written.
pub mod Inversion
use masterfabric_backend.Errors.{Error}

pub data Result (A : Type 0) : Type 0 where
  ok : A → Result A
  err : Error → Result A

abbrev pub Exec : Type 0 → Type 0 → Type 0
Exec S A = S → Result A × S

abbrev pub map_result_err : {A : Type 0} → (Error → Error) → Result A → Result A
map_result_err f (ok a) = ok a
map_result_err f (err e) = err (f e)

module _ {S A : Type 0} where
  unfoldable pub pure : A → Exec S A
  pure a s = (ok a, s)

  unfoldable pub raise : Error → Exec S A
  raise e s = (err e, s)

  -- A value that is an error already.
  unfoldable pub lift : Result A → Exec S A
  lift r s = (r, s)

  -- `x, err := f()` where the code goes on to look at `err`.
  unfoldable pub attempt : Exec S A → Exec S (Result A)
  attempt m s = let (r, s') = m s in (ok r, s')

  -- `if err != nil { return …f(err)… }`.
  unfoldable pub map_err : (Error → Error) → Exec S A → Exec S A
  map_err f m s = let (r, s') = m s in (map_result_err f r, s')

module _ {S A B : Type 0} where
  abbrev pub continue : Result A → (A → Exec S B) → Exec S B
  continue (ok a) f s = f a s
  continue (err e) f s = (err e, s)

  infixl 10 ◌>>=◌ ◌>>◌
  unfoldable pub ◌>>=◌ : Exec S A → (A → Exec S B) → Exec S B
  ◌>>=◌ m f s = let (r, s') = m s in continue r f s'

  abbrev pub ◌>>◌ : Exec S A → Exec S B → Exec S B
  m >> n = m >>= λ _. n
