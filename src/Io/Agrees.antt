-- ===== src/Io/Agrees.antt =====
-- `Agrees f m n`: `m` does what `n` does on every stream, with its errors translated by `f`.
use ssh.Io.Reads.{Reads}
use ssh.Base.{
  ◌≡◌, ◌∙◌, ap, Bytes, refl, Bool-cases, inl, inr, leb, length, Bool, true, false, if◌then◌else◌, ℕ,
}
use ssh.Io.{
  IoError, Stream, Result, ok, err, Reader, prepend, pure, fail, ◌>>=◌, lift, resume, read_exact,
}

abbrev pub map_err {ℓ κ μ} :
    {E : Type ℓ} {F : Type κ} {A : Type μ} → (E → F) → Result E A → Result F A
map_err f (ok a) = ok a
map_err f (err e) = err (f e)

pub record Agrees {ℓ κ μ} {E : Type ℓ} {F : Type κ} {A : Type μ} (f : E → F) (m : Reader F A)
    (n : Reader E A) : Type (ℓ ⊔ κ ⊔ μ) where
  pub at : (s : Stream) → m s ≡ (map_err f (n s).0, (n s).1)

module _ {ℓ κ μ} {E : Type ℓ} {F : Type κ} {A : Type μ} {f : E → F} where
  pub Agrees-pure : (a : A) → Agrees f (pure a) (pure a)
  unfolding pure
  Agrees-pure a = record { at = λ s. refl }

  pub Agrees-fail : (e : E) → Agrees f (fail {A = A} (f e)) (fail e)
  unfolding fail
  Agrees-fail e = record { at = λ s. refl }

  pub Agrees-lift : (r : Result E A) → Agrees f (lift (map_err f r)) (lift r)
  unfolding lift
  Agrees-lift r = record { at = λ s. refl }

  pub Agrees-if :
      (b : Bool) {m m' : Reader F A} {n n' : Reader E A}
      → Agrees f m n
      → Agrees f m' n'
      → Agrees f (if b then m else m') (if b then n else n')
  Agrees-if true h h' = h
  Agrees-if false h h' = h'

module _ {ℓ κ μ ν} {E : Type ℓ} {F : Type κ} {A : Type μ} {B : Type ν} {f : E → F} where
  Agrees-resume :
      (r : Result E A) {g : A → Reader F B} {k : A → Reader E B}
      → ((a : A) → Agrees f (g a) (k a))
      → Agrees f (resume (map_err f r) g) (resume r k)
  Agrees-resume (ok a) h = h a
  Agrees-resume (err e) h = record { at = λ s. refl }

  pub Agrees-bind :
      {m : Reader F A} {n : Reader E A} {g : A → Reader F B} {k : A → Reader E B}
      → Agrees f m n
      → ((a : A) → Agrees f (g a) (k a))
      → Agrees f (m >>= g) (n >>= k)
  unfolding ◌>>=◌
  Agrees-bind {n = n} hm h = record {
    at = λ s. rw (hm.at s) ((Agrees-resume (n s).0 h).at (n s).1);
  }

pub Agrees-read_exact {ℓ κ} :
    {E : Type ℓ} {F : Type κ} {f : E → F} (into : IoError → E) (into' : IoError → F) (n : ℕ)
    → ((e : IoError) → into' e ≡ f (into e))
    → Agrees f (read_exact into' n) (read_exact into n)
unfolding read_exact
Agrees-read_exact into into' n h = record {
  at = λ s. elim (Bool-cases (leb n (length s.bytes))) [
    | inl p ↦ rw p
    | inr p ↦ rw p (rw (h s.ending))
  ];
}

-- A nested block does what the flat one does.
module _ {ℓ κ μ ν} {E : Type ℓ} {A : Type κ} {B : Type μ} {C : Type ν} where
  resume_assoc :
      (r : Result E A) (k : A → Reader E B) (g : B → Reader E C) (s : Stream)
      → (resume r k >>= g) s ≡ resume r (λ a. k a >>= g) s
  unfolding ◌>>=◌
  resume_assoc (ok a) k g s = refl
  resume_assoc (err e) k g s = refl

  bind_assoc :
      (m : Reader E A) (k : A → Reader E B) (g : B → Reader E C) (s : Stream)
      → ((m >>= k) >>= g) s ≡ (m >>= λ a. k a >>= g) s
  unfolding ◌>>=◌
  bind_assoc m k g s = let (r, s') = m s in resume_assoc r k g s'

module _ {ℓ κ μ ν ξ} {E : Type ℓ} {F : Type κ} {A : Type μ} {B : Type ν} {C : Type ξ}
    {f : E → F} where
  pub Agrees-assoc :
      {x : Reader F C} (m : Reader E A) (k : A → Reader E B) (g : B → Reader E C)
      → Agrees f x (m >>= λ a. k a >>= g)
      → Agrees f x ((m >>= k) >>= g)
  Agrees-assoc m k g h = record { at = λ s. rw (bind_assoc m k g s) (h.at s) }

module _ {ℓ κ μ ν} {E : Type ℓ} {F : Type κ} {A : Type μ} {B : Type ν} {f : E → F} where
  pub Agrees-pure_bind :
      {x : Reader F B} (a : A) (k : A → Reader E B) → Agrees f x (k a) → Agrees f x (pure a >>= k)
  unfolding ◌>>=◌
  Agrees-pure_bind a k h = record { at = h.at }

pub ruleset agrees_rules =
    (Agrees-pure, Agrees-fail, Agrees-lift, Agrees-if, Agrees-bind, Agrees-assoc, Agrees-pure_bind)

-- What the plain reader takes and returns, the translating one does too.
pub Agrees-Reads {ℓ κ μ} :
    {E : Type ℓ} {F : Type κ} {A : Type μ} {f : E → F} {m : Reader F A} {n : Reader E A}
    {bs : Bytes} {a : A}
    → Agrees f m n
    → Reads n bs a
    → Reads m bs a
Agrees-Reads {f = f} {bs = bs} h r = record {
  at = λ s. h.at (prepend bs s) ∙ ap (λ x. (map_err f x.0, x.1)) (r.at s);
}
