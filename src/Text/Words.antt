-- ===== src/Text/Words.antt =====
-- Words that are joined with spaces are split into these words.
use ssh.Base.{◌≡◌, refl, [], ◌∷◌, ◌++◌, false, All}
use ssh.Text.{Text, is_whitespace, words_of, split_whitespace, trim, trim_start, trim_end}

abbrev pub HasNoSpace : Text → Type 0
HasNoSpace = All (λ c. is_whitespace c ≡ false)

-- A character, and others, none of them whitespace.
abbrev pub IsWord : Text → Type 0
IsWord [] = ⊥
IsWord (c ∷ cs) = HasNoSpace (c ∷ cs)

words_of-append :
    (word rest : Text)
    → HasNoSpace word
    → words_of (word ++ b' ' ∷ rest) ≡ (word, split_whitespace rest)
unfolding words_of split_whitespace is_whitespace
words_of-append [] rest h = refl
words_of-append (c ∷ cs) rest h = rw (words_of-append cs rest h.1, h.0)

words_of_word : (word : Text) → HasNoSpace word → words_of word ≡ (word, [])
unfolding words_of
words_of_word [] h = refl
words_of_word (c ∷ cs) h = rw (words_of_word cs h.1, h.0)

pub split_whitespace-append :
    (word rest : Text)
    → IsWord word
    → split_whitespace (word ++ b' ' ∷ rest) ≡ word ∷ split_whitespace rest
unfolding split_whitespace
split_whitespace-append [] rest h = absurd h
split_whitespace-append (c ∷ cs) rest h = rw (words_of-append (c ∷ cs) rest h)

pub split_whitespace_word : (word : Text) → IsWord word → split_whitespace word ≡ word ∷ []
unfolding split_whitespace
split_whitespace_word [] h = absurd h
split_whitespace_word (c ∷ cs) h = rw (words_of_word (c ∷ cs) h)

trim_end_word : (text : Text) → HasNoSpace text → trim_end text ≡ text
unfolding trim_end
trim_end_word [] h = refl
trim_end_word (c ∷ []) h = rw (h.0) refl
trim_end_word (c ∷ d ∷ ds) h = rw (trim_end_word (d ∷ ds) h.1) refl

trim_start_word : (text : Text) → HasNoSpace text → trim_start text ≡ text
unfolding trim_start
trim_start_word [] h = refl
trim_start_word (c ∷ cs) h = rw (h.0) refl

pub trim_word : (text : Text) → HasNoSpace text → trim text ≡ text
unfolding trim
trim_word text h = rw (trim_start_word text h) (trim_end_word text h)
