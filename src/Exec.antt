-- ===== src/Exec.antt =====
-- A call on a shared object or on the node: it changes the state and returns or raises. What was
-- written before a raise stays written, so the state comes back beside the exception too.
use rawfile_localpv.Prelude.{◌≡◌, ap, ◌∙◌, Bool, true, false, Option, none, some}
use rawfile_localpv.Errors.{Exception, Result, ok, err}

abbrev pub Exec : Type 0 → Type 0 → Type 0
Exec S A = S → Result A × S

module _ {S A : Type 0} where
  abbrev pub pure : A → Exec S A
  pure a s = (ok a, s)

  abbrev pub raise : Exception → Exec S A
  raise e s = (err e, s)

  abbrev pub gets : (S → A) → Exec S A
  gets f s = (ok (f s), s)

  abbrev pub or_raise : Option A → Exception → Exec S A
  or_raise none e = raise e
  or_raise (some a) e = pure a

  abbrev pub lift : Result A → Exec S A
  lift r s = (r, s)

module _ {S A B : Type 0} where
  abbrev pub proceed : (A → Exec S B) → Result A × S → Result B × S
  proceed f (ok a, s) = f a s
  proceed f (err e, s) = (err e, s)

  infixl 5 ◌>>=◌ ◌>>◌
  abbrev pub ◌>>=◌ : Exec S A → (A → Exec S B) → Exec S B
  ◌>>=◌ m f s = proceed f (m s)

  abbrev pub ◌>>◌ : Exec S A → Exec S B → Exec S B
  m >> k = m >>= λ _. k

module _ {S A B : Type 0} where
  -- A call whose first part is known goes on from where that part left the state.
  pub >>=-eq_of_ok :
      (m : Exec S A) (f : A → Exec S B) {a : A} {s s' : S} → m s ≡ (ok a, s') → (m >>= f) s ≡ f a s'
  >>=-eq_of_ok m f e = ap (proceed f) e

  pub >>=-eq_of_err :
      (m : Exec S A) (f : A → Exec S B) {x : Exception} {s s' : S}
      → m s ≡ (err x, s')
      → (m >>= f) s ≡ (err x, s')
  >>=-eq_of_err m f e = ap (proceed f) e

  -- What the first part ensures of the state and the second keeps, whatever it is given.
  pub proceed-keeps :
      (P : S → Type 0) (f : A → Exec S B) (r : Result A × S)
      → P r.1
      → ((a : A) (s : S) → P s → P (f a s).1)
      → P (proceed f r).1
  proceed-keeps P f (ok a, s) h k = k a s h
  proceed-keeps P f (err e, s) h k = h

module _ {S : Type 0} where
  abbrev pub modify : (S → S) → Exec S Unit
  modify f s = (ok tt, f s)

  abbrev pub raise_if : Bool → Exception → Exec S Unit
  raise_if true e s = (err e, s)
  raise_if false e s = (ok tt, s)

module _ {S A : Type 0} where
  abbrev pub settle : Result A → Result Unit × S → Result A × S
  settle r (ok _, s) = (r, s)
  settle r (err e, s) = (err e, s)

  abbrev pub ends : Exec S Unit → Result A × S → Result A × S
  ends k (r, s) = settle r (k s)

  -- `try: m finally: k`; what `k` raises replaces what `m` raised.
  abbrev pub finally : Exec S A → Exec S Unit → Exec S A
  finally m k s = ends k (m s)

  pub finally-eq :
      (m : Exec S A) (k : Exec S Unit) {r : Result A} {s s' s'' : S}
      → m s ≡ (r, s')
      → k s' ≡ (ok tt, s'')
      → finally m k s ≡ (r, s'')
  finally-eq m k {r} e f = ap (ends k) e ∙ ap (settle r) f
