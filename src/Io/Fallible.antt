-- ===== src/Io/Fallible.antt =====
-- The operator `?` of a function without state, and what a chain of them went through to succeed.
use ssh.Base.{Bool, true, false, Option, none, some, ◌≡◌, refl}
use ssh.Io.{Result, ok, err}

-- `Option::ok_or`, also for `?` on a crate's result, whose error has one case.
abbrev pub ok_or {ℓ κ} : {E : Type ℓ} {A : Type κ} → E → Option A → Result E A
ok_or e none = err e
ok_or e (some a) = ok a

-- The operator `?` in a function without state.
infixl 5 ◌>>=◌
abbrev pub ◌>>=◌ {ℓ κ μ} :
    {E : Type ℓ} {A : Type κ} {B : Type μ} → Result E A → (A → Result E B) → Result E B
ok a >>= f = f a
err e >>= f = err e

abbrev pub check {ℓ} : {E : Type ℓ} → E → Bool → Result E (Unit {0})
check e true = ok tt
check e false = err e

-- An error with another type, `map_err`.
abbrev pub map_err {ℓ κ μ} :
    {E : Type ℓ} {F : Type κ} {A : Type μ} → (E → F) → Result E A → Result F A
map_err f (ok a) = ok a
map_err f (err e) = err (f e)

abbrev pub is_ok {ℓ κ} : {E : Type ℓ} {A : Type κ} → Result E A → Bool
is_ok (ok a) = true
is_ok (err e) = false

module _ {ℓ κ μ} {E : Type ℓ} {A : Type κ} {B : Type μ} (f : A → Result E B) (b : B) where
  pub >>=-inv : (r : Result E A) → (r >>= f) ≡ ok b → (a : A) × (r ≡ ok a) × (f a ≡ ok b)
  >>=-inv (ok a) h = (a, refl, h)
  >>=-inv (err e) h = absurd cc

  pub ok_or-inv :
      (e : E) (o : Option A) → (ok_or e o >>= f) ≡ ok b → (a : A) × (o ≡ some a) × (f a ≡ ok b)
  ok_or-inv e none h = absurd cc
  ok_or-inv e (some a) h = (a, refl, h)

module _ {ℓ μ} {E : Type ℓ} {B : Type μ} (f : Unit {0} → Result E B) (b : B) where
  pub check-inv :
      (e : E) (test : Bool) → (check e test >>= f) ≡ ok b → (test ≡ true) × (f tt ≡ ok b)
  check-inv e true h = (refl, h)
  check-inv e false h = absurd cc

pub check_passed {ℓ} : {E : Type ℓ} (e : E) (test : Bool) → check e test ≡ ok tt → test ≡ true
check_passed e true h = refl
check_passed e false h = absurd cc

pub is_ok_iff {ℓ} : {E : Type ℓ} (r : Result E (Unit {0})) → is_ok r ≡ true → r ≡ ok tt
is_ok_iff (ok tt) h = refl
is_ok_iff (err e) h = absurd cc
