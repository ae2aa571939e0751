-- ===== src/Io/Yields.antt =====
-- `Yields P m`: on a stream of bytes, whatever `m` returns satisfies `P`, and what it leaves on
-- the stream is bytes again.
use ssh.Base.{
  ℕ, AreBytes, IsByte, ◌≡◌, refl, ap, Bool, true, false, if◌then◌else◌, length, All-take, All-drop,
  leb, arith, length-take, Bool-cases, inl, inr,
}
use mathlib.Core.Path.{subst}
use ssh.Io.{IoError, Stream, Result, ok, err, Reader, pure, fail, ◌>>=◌, lift, resume, read_exact}

pub record Yields {ℓ κ μ} {E : Type ℓ} {A : Type κ} (P : A → Type μ) (m : Reader E A)
    : Type (ℓ ⊔ κ ⊔ μ) where
  pub result : (s : Stream) (a : A) → AreBytes s.bytes → (m s).0 ≡ ok a → P a
  pub leaves : (s : Stream) → AreBytes s.bytes → AreBytes (m s).1.bytes

-- The value of a success.
value_or {ℓ κ} : {E : Type ℓ} {A : Type κ} → A → Result E A → A
value_or d (ok a) = a
value_or d (err e) = d

ok_injective {ℓ κ} :
    {E : Type ℓ} {A : Type κ} {a b : A} → ◌≡◌ {A = Result E A} (ok a) (ok b) → a ≡ b
unfolding value_or
ok_injective {a} p = ap (value_or a) p

module _ {ℓ κ μ} {E : Type ℓ} {A : Type κ} {P : A → Type μ} where
  pub Yields-pure : (a : A) → P a → Yields {E = E} P (pure a)
  unfolding pure
  Yields-pure a h = record { result = λ s b k p. subst P (ok_injective p) h; leaves = λ s k. k }

  pub Yields-fail : (e : E) → Yields P (fail {A = A} e)
  unfolding fail
  Yields-fail e = record { result = λ s a k p. cc; leaves = λ s k. k }

  pub Yields-lift : (r : Result E A) → ((a : A) → r ≡ ok a → P a) → Yields P (lift r)
  unfolding lift
  Yields-lift r h = record { result = λ s a k p. h a p; leaves = λ s k. k }

  pub Yields-if :
      (b : Bool) (m n : Reader E A)
      → (b ≡ true → Yields P m)
      → (b ≡ false → Yields P n)
      → Yields P (if b then m else n)
  Yields-if true m n hm hn = hm refl
  Yields-if false m n hm hn = hn refl

module _ {ℓ κ μ ν} {E : Type ℓ} {A : Type κ} {P : A → Type μ} {Q : A → Type ν} where
  pub Yields-weaken : {m : Reader E A} → Yields P m → ((a : A) → P a → Q a) → Yields Q m
  Yields-weaken h k = record { result = λ s a b p. k a (h.result s a b p); leaves = h.leaves }

module _ {ℓ κ μ ξ} {E : Type ℓ} {A : Type κ} {B : Type μ} {Q : B → Type ξ} where
  Yields-resume :
      (r : Result E A) (f : A → Reader E B)
      → ((a : A) → r ≡ ok a → Yields Q (f a))
      → Yields Q (resume r f)
  Yields-resume (ok a) f h = h a refl
  Yields-resume (err e) f h = record { result = λ s a k p. cc; leaves = λ s k. k }

module _ {ℓ κ μ ν ξ} {E : Type ℓ} {A : Type κ} {B : Type μ} {P : A → Type ν} {Q : B → Type ξ} where
  pub Yields-bind :
      (m : Reader E A) (f : A → Reader E B)
      → Yields P m
      → ((a : A) → P a → Yields Q (f a))
      → Yields Q (m >>= f)
  unfolding ◌>>=◌
  Yields-bind m f hm hf = record {
    result = λ s b k p. (rest s k).result (m s).1 b (hm.leaves s k) p;
    leaves = λ s k. (rest s k).leaves (m s).1 (hm.leaves s k);
  }
    where
      rest : (s : Stream) → AreBytes s.bytes → Yields Q (resume (m s).0 f)
      rest s k = Yields-resume (m s).0 f (λ a p. hf a (hm.result s a k p))

-- `read_exact n` returns `n` bytes.
pub Yields-read_exact {ℓ} :
    {E : Type ℓ} (into : IoError → E) (n : ℕ)
    → Yields (λ bs. AreBytes bs × (length bs ≡ n)) (read_exact into n)
unfolding read_exact
Yields-read_exact into n = record {
  result = λ s bs k p. elim (Bool-cases (leb n (length s.bytes))) [
    | inl fits ↦
        let e = ok_injective (rw fits at p) in
        subst (λ bs. AreBytes bs × (length bs ≡ n)) e
          (All-take IsByte n s.bytes k, ground (arith, length-take n s.bytes))
    | inr short ↦ let e = rw short at p in cc e
  ];
  leaves = λ s k. elim (Bool-cases (leb n (length s.bytes))) [
    | inl fits ↦ rw fits (All-drop IsByte n s.bytes k)
    | inr short ↦ rw short tt
  ];
}

pub ruleset yields_rules = (Yields-pure, Yields-fail, Yields-lift, Yields-if, Yields-bind)
