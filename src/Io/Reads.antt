-- ===== src/Io/Reads.antt =====
-- `Reads m bs a`: on any stream that delivers `bs` first, `m` takes exactly `bs` and returns `a`.
use ssh.Base.{
  ℕ, Bytes, ◌++◌, [], append_assoc, ◌≡◌, refl, true, length, take-append, drop-append, leb, le→leb,
  arith, length-append,
}
use ssh.Io.{IoError, Stream, Result, ok, Reader, prepend, pure, ◌>>=◌, lift, read_exact}

pub record Reads {ℓ κ} {E : Type ℓ} {A : Type κ} (m : Reader E A) (bs : Bytes) (a : A)
    : Type (ℓ ⊔ κ) where
  pub at : (s : Stream) → m (prepend bs s) ≡ (ok a, s)

module _ {ℓ κ} {E : Type ℓ} {A : Type κ} where
  pub Reads-pure : (a : A) → Reads {E = E} (pure a) [] a
  unfolding pure
  Reads-pure a = record { at = λ s. refl }

  pub Reads-lift : (r : Result E A) (a : A) → r ≡ ok a → Reads {E = E} (lift r) [] a
  unfolding lift
  Reads-lift r a e = record { at = λ s. rw e }

module _ {ℓ κ μ} {E : Type ℓ} {A : Type κ} {B : Type μ} where
  pub Reads-bind :
      {m : Reader E A} (f : A → Reader E B) {bs cs : Bytes} {a : A} {b : B}
      → Reads m bs a
      → Reads (f a) cs b
      → Reads (m >>= f) (bs ++ cs) b
  unfolding ◌>>=◌
  Reads-bind f {bs} {cs} hm hf = record {
    at = λ s. rw (append_assoc bs cs s.bytes) (rw (hm.at (prepend cs s)) (hf.at s));
  }

  -- The rest of the block takes no more bytes.
  pub Reads-last :
      {m : Reader E A} (f : A → Reader E B) {bs : Bytes} {a : A} {b : B}
      → Reads m bs a
      → Reads (f a) [] b
      → Reads (m >>= f) bs b
  unfolding ◌>>=◌
  Reads-last f hm hf = record { at = λ s. rw (hm.at s) (hf.at s) }

pub Reads-read_exact {ℓ} :
    {E : Type ℓ} (into : IoError → E) (n : ℕ) (bs : Bytes)
    → length bs ≡ n
    → Reads (read_exact into n) bs bs
unfolding read_exact
Reads-read_exact into n bs e = record {
  at = λ s.
      let fits : leb n (length (bs ++ s.bytes)) ≡ true =
        le→leb _ _ (omega (arith, length-append bs s.bytes)) in
      rw fits (rw (← e) (rw (take-append bs s.bytes, drop-append bs s.bytes)));
}

pub ruleset reads_rules = (Reads-pure, Reads-bind, Reads-last)
