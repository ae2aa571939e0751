-- ===== src/Text/Split.antt =====
-- Splitting at a separator takes apart what was joined with it, and nothing else.
use ssh.Base.{
  ◌∙◌, ap, ℕ, ◌≡◌, refl, [], ◌∷◌, ◌++◌, false, Option, none, some, ◌==◌, All, ◌>>=◌, if◌then◌else◌,
  arith, Bool-cases, ==_iff, inl, inr,
}
use ssh.Text.{Text, split_once, rsplit_once, last_split}

abbrev pub Lacks : ℕ → Text → Type 0
Lacks c = All (λ x. (x == c) ≡ false)

pub split_once-append :
    (c : ℕ) (before after : Text)
    → Lacks c before
    → split_once c (before ++ c ∷ after) ≡ some (before, after)
unfolding split_once
split_once-append c [] after h = ground arith
split_once-append c (x ∷ xs) after h = rw (h.0, split_once-append c xs after h.1)

rsplit_once-none : (c : ℕ) (text : Text) → Lacks c text → rsplit_once c text ≡ none
unfolding rsplit_once
rsplit_once-none c [] h = refl
rsplit_once-none c (x ∷ xs) h = rw (rsplit_once-none c xs h.1, h.0)

pub rsplit_once-append :
    (c : ℕ) (before after : Text)
    → Lacks c after
    → rsplit_once c (before ++ c ∷ after) ≡ some (before, after)
unfolding rsplit_once
rsplit_once-append c [] after h = rw (rsplit_once-none c after h) (ground arith)
rsplit_once-append c (x ∷ xs) after h = rw (rsplit_once-append c xs after h)

split_front :
    (x : ℕ) (rest : Option (Text × Text)) (parts : Text × Text)
    → (rest >>= (λ p. some (x ∷ p.0, p.1))) ≡ some parts
    → (inner : Text × Text) × (rest ≡ some inner) × ((x ∷ inner.0, inner.1) ≡ parts)
split_front x none parts h = absurd cc
split_front x (some inner) parts h = (inner, refl, cc)

pub split_once-inv :
    (c : ℕ) (text : Text) (parts : Text × Text)
    → split_once c text ≡ some parts
    → text ≡ parts.0 ++ c ∷ parts.1
unfolding split_once
split_once-inv c [] parts h = absurd cc
split_once-inv c (x ∷ xs) parts h = elim (Bool-cases (x == c)) [
  | inl same ↦
      let here : some ([], xs) ≡ some parts = rw (← h, same) in
      let e : ([], xs) ≡ parts = cc in rw (← e, (==_iff x c).0 same)
  | inr different ↦
      let there : (split_once c xs >>= (λ p. some (x ∷ p.0, p.1))) ≡ some parts =
        rw (← h, different) in
      let (inner, found, e) = split_front x (split_once c xs) parts there in
      ap (λ tail. x ∷ tail) (split_once-inv c xs inner found) ∙ ap (λ p. p.0 ++ c ∷ p.1) e
]

last_split-inv :
    (c x : ℕ) (xs : Text) (rest : Option (Text × Text)) (parts : Text × Text)
    → ((inner : Text × Text) → rest ≡ some inner → xs ≡ inner.0 ++ c ∷ inner.1)
    → last_split c x xs rest ≡ some parts
    → x ∷ xs ≡ parts.0 ++ c ∷ parts.1
last_split-inv c x xs (some inner) parts ih h =
    let e : (x ∷ inner.0, inner.1) ≡ parts = cc in rw (← e, ih inner refl)
last_split-inv c x xs none parts ih h = elim (Bool-cases (x == c)) [
  | inl same ↦
      let here : some ([], xs) ≡ some parts = rw (← h, same) in
      let e : ([], xs) ≡ parts = cc in rw (← e, (==_iff x c).0 same)
  | inr different ↦
      let nowhere : (if false then some ([], xs) else none) ≡ some parts = rw (← h, different) in
      absurd cc
]

pub rsplit_once-inv :
    (c : ℕ) (text : Text) (parts : Text × Text)
    → rsplit_once c text ≡ some parts
    → text ≡ parts.0 ++ c ∷ parts.1
unfolding rsplit_once
rsplit_once-inv c [] parts h = absurd cc
rsplit_once-inv c (x ∷ xs) parts h =
    last_split-inv c x xs (rsplit_once c xs) parts (rsplit_once-inv c xs) h
