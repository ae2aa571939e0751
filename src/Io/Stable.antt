-- ===== src/Io/Stable.antt =====
-- `Stable into m`: `m` takes a front of the stream, and unless it met the stream's end, it does the same
-- on every longer stream, whose further bytes join those that it leaves.
use ssh.Base.{
  ℕ, Bytes, ◌++◌, ◌≡◌, refl, ap, ◌∙◌, ◌≤◌, Bool, true, false, if◌then◌else◌, length, leb, ◌⊎◌, inl,
  inr, arith, length-append, take-append_le, drop-append_le, Bool-cases, le→leb,
}
use ssh.Io.{
  IoError, Stream, Result, ok, err, Reader, extend, pure, fail, ◌>>=◌, lift, resume, read_exact,
}

pub record Stable {ℓ κ} {E : Type ℓ} {A : Type κ} (into : IoError → E) (m : Reader E A)
    : Type (ℓ ⊔ κ) where
  pub ending : (s : Stream) → (m s).1.ending ≡ s.ending
  pub same :
      (s : Stream) (more : Bytes)
      → ((m s).0 ≡ err (into s.ending)) ⊎ (m (extend s more) ≡ ((m s).0, extend (m s).1 more))

module _ {ℓ κ} {E : Type ℓ} {A : Type κ} {into : IoError → E} where
  pub Stable-pure : (a : A) → Stable into (pure a)
  unfolding pure
  Stable-pure a = record { ending = λ s. refl; same = λ s more. inr refl }

  pub Stable-fail : (e : E) → Stable into (fail {A = A} e)
  unfolding fail
  Stable-fail e = record { ending = λ s. refl; same = λ s more. inr refl }

  pub Stable-lift : (r : Result E A) → Stable into (lift r)
  unfolding lift
  Stable-lift r = record { ending = λ s. refl; same = λ s more. inr refl }

  pub Stable-if :
      (b : Bool) (m n : Reader E A)
      → Stable into m
      → Stable into n
      → Stable into (if b then m else n)
  Stable-if true m n hm hn = hm
  Stable-if false m n hm hn = hn

module _ {ℓ κ μ} {E : Type ℓ} {A : Type κ} {B : Type μ} {into : IoError → E} where
  Stable-resume :
      (r : Result E A) (f : A → Reader E B)
      → ((a : A) → Stable into (f a))
      → Stable into (resume r f)
  Stable-resume (ok a) f h = h a
  Stable-resume (err e) f h = record { ending = λ s. refl; same = λ s more. inr refl }

  pub Stable-bind :
      (m : Reader E A) (f : A → Reader E B)
      → Stable into m
      → ((a : A) → Stable into (f a))
      → Stable into (m >>= f)
  unfolding ◌>>=◌
  Stable-bind m f hm hf = record {
    ending = λ s. (Stable-resume (m s).0 f hf).ending (m s).1 ∙ hm.ending s;
    same = λ s more. elim (hm.same s more) [
      | inl p ↦ inl (rw p)
      | inr p ↦ rw p (elim ((Stable-resume (m s).0 f hf).same (m s).1 more) [
        | inl q ↦ inl (q ∙ ap (λ e. err (into e)) (hm.ending s))
        | inr q ↦ inr q
      ])
    ];
  }

pub Stable-read_exact {ℓ} :
    {E : Type ℓ} (into : IoError → E) (n : ℕ) → Stable into (read_exact into n)
unfolding read_exact
Stable-read_exact into n = record {
  ending = λ s. elim (Bool-cases (leb n (length s.bytes))) [ inl p ↦ rw p | inr p ↦ rw p ];
  same = λ s more. elim (Bool-cases (leb n (length s.bytes))) [
    | inl p ↦
        let fits : n ≤ length s.bytes = ground arith in
        let q : leb n (length (s.bytes ++ more)) ≡ true =
          le→leb _ _ (omega (arith, length-append s.bytes more)) in
        inr
          (rw (p, q) (rw (take-append_le n s.bytes more fits, drop-append_le n s.bytes more fits)))
    | inr p ↦ inl (rw p)
  ];
}

pub ruleset stable_rules = (Stable-pure, Stable-fail, Stable-lift, Stable-if, Stable-bind)
