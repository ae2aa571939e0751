-- ===== src/Io/Takes.antt =====
-- How much a reader takes: `Shrinks m` never lengthens the stream, and `Takes m` takes a byte at
-- least whenever it succeeds.
use ssh.Base.{
  ℕ, ◌≤◌, ◌<◌, suc, ◌≡◌, refl, Bool, true, false, if◌then◌else◌, length, leb, arith, length-drop,
  Bool-cases, inl, inr,
}
use ssh.Io.{IoError, Stream, Result, ok, err, Reader, pure, fail, ◌>>=◌, lift, resume, read_exact}

pub record Shrinks {ℓ κ} {E : Type ℓ} {A : Type κ} (m : Reader E A) : Type (ℓ ⊔ κ) where
  pub at : (s : Stream) → length (m s).1.bytes ≤ length s.bytes

module _ {ℓ κ} {E : Type ℓ} {A : Type κ} where
  pub Shrinks-pure : (a : A) → Shrinks {E = E} (pure a)
  unfolding pure
  Shrinks-pure a = record { at = λ s. omega arith }

  pub Shrinks-fail : (e : E) → Shrinks (fail {A = A} e)
  unfolding fail
  Shrinks-fail e = record { at = λ s. omega arith }

  pub Shrinks-lift : (r : Result E A) → Shrinks (lift r)
  unfolding lift
  Shrinks-lift r = record { at = λ s. omega arith }

  pub Shrinks-if :
      (b : Bool) (m n : Reader E A) → Shrinks m → Shrinks n → Shrinks (if b then m else n)
  Shrinks-if true m n hm hn = hm
  Shrinks-if false m n hm hn = hn

module _ {ℓ κ μ} {E : Type ℓ} {A : Type κ} {B : Type μ} where
  Shrinks-resume :
      (r : Result E A) (f : A → Reader E B) → ((a : A) → Shrinks (f a)) → Shrinks (resume r f)
  Shrinks-resume (ok a) f h = h a
  Shrinks-resume (err e) f h = record { at = λ s. omega arith }

  pub Shrinks-bind :
      (m : Reader E A) (f : A → Reader E B)
      → Shrinks m
      → ((a : A) → Shrinks (f a))
      → Shrinks (m >>= f)
  unfolding ◌>>=◌
  Shrinks-bind m f hm hf = record {
    at = λ s. omega (arith, hm.at s, (Shrinks-resume (m s).0 f hf).at (m s).1);
  }

pub Shrinks-read_exact {ℓ} : {E : Type ℓ} (into : IoError → E) (n : ℕ) → Shrinks (read_exact into n)
unfolding read_exact
Shrinks-read_exact into n = record {
  at = λ s. elim (Bool-cases (leb n (length s.bytes))) [
    | inl p ↦ rw p (omega (arith, length-drop n s.bytes))
    | inr p ↦ rw p (omega arith)
  ];
}

pub ruleset shrinks_rules =
    (Shrinks-pure, Shrinks-fail, Shrinks-lift, Shrinks-if, Shrinks-bind, Shrinks-read_exact)

pub record Takes {ℓ κ} {E : Type ℓ} {A : Type κ} (m : Reader E A) : Type (ℓ ⊔ κ) where
  pub some_byte : (s : Stream) (a : A) → (m s).0 ≡ ok a → length (m s).1.bytes < length s.bytes

pub Takes-read_exact {ℓ} :
    {E : Type ℓ} (into : IoError → E) (n : ℕ) → Takes (read_exact into (suc n))
unfolding read_exact
Takes-read_exact into n = record {
  some_byte = λ s a e. elim (Bool-cases (leb (suc n) (length s.bytes))) [
    | inl p ↦ rw p (ground (arith, length-drop (suc n) s.bytes))
    | inr p ↦ let clash = rw p at e in cc clash
  ];
}

module _ {ℓ κ μ} {E : Type ℓ} {A : Type κ} {B : Type μ} where
  after_resume :
      (r : Result E A) (f : A → Reader E B) (s t : Stream) (b : B)
      → ((a : A) → r ≡ ok a → length s.bytes < length t.bytes)
      → ((a : A) → Shrinks (f a))
      → (resume r f s).0 ≡ ok b
      → length (resume r f s).1.bytes < length t.bytes
  after_resume (ok a) f s t b hm hf e = omega (arith, hm a refl, (hf a).at s)
  after_resume (err x) f s t b hm hf e = cc

  pub Takes-bind :
      (m : Reader E A) (f : A → Reader E B) → Takes m → ((a : A) → Shrinks (f a)) → Takes (m >>= f)
  unfolding ◌>>=◌
  Takes-bind m f hm hf = record {
    some_byte = λ s b e. after_resume (m s).0 f (m s).1 s b (λ a p. hm.some_byte s a p) hf e;
  }
