-- ===== src/Prelude/Results.antt =====
-- `Result<T, E>`, and code that also changes a state: what was written before an error stays
-- written, so the state comes back beside the error.
use mathlib.Core.Path.{◌≡◌, refl}
use mathlib.Core.Logic.{◌⊎◌, inl, inr}
use native.Mathlib.Omega.{arith}

pub data Result {ℓ κ} (E : Type ℓ) (A : Type κ) : Type (ℓ ⊔ κ) where
  ok : A → Result E A
  err : E → Result E A

abbrev pub map_ok {ℓ κ ι} :
    {E : Type ℓ} {A : Type κ} {B : Type ι} → (A → B) → Result E A → Result E B
map_ok f (ok a) = ok (f a)
map_ok f (err e) = err e

abbrev pub map_err {ℓ κ ι} :
    {E : Type ℓ} {F : Type κ} {A : Type ι} → (E → F) → Result E A → Result F A
map_err f (ok a) = ok a
map_err f (err e) = err (f e)

abbrev pub and_then {ℓ κ ι} :
    {E : Type ℓ} {A : Type κ} {B : Type ι} → Result E A → (A → Result E B) → Result E B
and_then (ok a) f = f a
and_then (err e) f = err e

-- A computation over a state `S` that returns an `A` or fails with an `E`.
abbrev pub Run : Type 0 → Type 0 → Type 0 → Type 0
Run S E A = S → Result E A × S

module _ {S E : Type 0} where
  abbrev pub pure : {A : Type 0} → A → Run S E A
  pure a s = (ok a, s)

  abbrev pub raise : {A : Type 0} → E → Run S E A
  raise e s = (err e, s)

  -- A result that needs no state.
  abbrev pub lift : {A : Type 0} → Result E A → Run S E A
  lift r s = (r, s)

  -- A query of the state.
  abbrev pub gets : {A : Type 0} → (S → Result E A) → Run S E A
  gets f s = (f s, s)

  abbrev pub continue : {A B : Type 0} → Result E A → (A → Run S E B) → Run S E B
  continue (ok a) f s = f a s
  continue (err e) f s = (err e, s)

  infixl 5 ◌>>=◌ ◌>>◌
  abbrev pub ◌>>=◌ : {A B : Type 0} → Run S E A → (A → Run S E B) → Run S E B
  ◌>>=◌ m f s = let (r, s') = m s in continue r f s'

  abbrev pub ◌>>◌ : {A B : Type 0} → Run S E A → Run S E B → Run S E B
  m >> k = m >>= λ _. k

abbrev pub with_err : {S E F A : Type 0} → (E → F) → Run S E A → Run S F A
with_err f m s = let (r, s') = m s in (map_err f r, s')

pub Result-cases {ℓ κ} :
    {E : Type ℓ} {A : Type κ} (r : Result E A) → ((a : A) × (r ≡ ok a)) ⊎ ((e : E) × (r ≡ err e))
Result-cases (ok a) = inl (a, refl)
Result-cases (err e) = inr (e, refl)

-- A run that returned: each of its parts returned.
module _ {S E : Type 0} where
  pub >>=-eq-ok :
      {A B : Type 0} (m : Run S E A) (f : A → Run S E B) (s : S) {b : B} {t : S}
      → (m >>= f) s ≡ (ok b, t)
      → (a : A) × (u : S) × (m s ≡ (ok a, u)) × (f a u ≡ (ok b, t))
  >>=-eq-ok m f s h = elim (Result-cases (m s).0) [
    | inl (a, e) ↦ (a, (m s).1, ground arith, ground arith)
    | inr (x, e) ↦ absurd (ground arith)
  ]

  pub with_err-eq-ok :
      {F A : Type 0} (g : E → F) (m : Run S E A) (s : S) {a : A} {t : S}
      → with_err g m s ≡ (ok a, t)
      → m s ≡ (ok a, t)
  with_err-eq-ok g m s h = ground arith
