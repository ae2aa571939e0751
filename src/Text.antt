-- ===== src/Text.antt =====
-- Text as the code sees it through `str`: characters as their numbers. The functions of Rust's
-- standard library that the server and the authentication crate call.
pub mod Words
pub mod Split
use ssh.Base.{
  ℕ, ◌+◌, ◌-◌, Bytes, List, [], ◌∷◌, Bool, true, false, not, ◌&&◌, ◌||◌, Option, none, some,
  if◌then◌else◌, leb, ◌==◌, bytes_eq, codes, ◌>>=◌,
}

abbrev pub Text : Type 0
Text = Bytes

abbrev pub between : ℕ → ℕ → ℕ → Bool
between low high c = leb low c && leb c high

-- `char::is_whitespace`
unfoldable pub is_whitespace : ℕ → Bool
is_whitespace c =
    between 9 13 c
    || c == 32
    || c == 0x85
    || c == 0xa0
    || c == 0x1680
    || between 0x2000 0x200a c
    || c == 0x2028
    || c == 0x2029
    || c == 0x202f
    || c == 0x205f
    || c == 0x3000

unfoldable pub to_ascii_uppercase : ℕ → ℕ
to_ascii_uppercase c = if between b'a' b'z' c then c - 32 else c

-- `str::eq_ignore_ascii_case`
unfoldable pub eq_ignore_ascii_case : Text → Text → Bool
unfolding to_ascii_uppercase
eq_ignore_ascii_case [] [] = true
eq_ignore_ascii_case [] (y ∷ ys) = false
eq_ignore_ascii_case (x ∷ xs) [] = false
eq_ignore_ascii_case (x ∷ xs) (y ∷ ys) =
    to_ascii_uppercase x == to_ascii_uppercase y && eq_ignore_ascii_case xs ys

unfoldable pub trim_start : Text → Text
unfolding is_whitespace
trim_start [] = []
trim_start (x ∷ xs) = if is_whitespace x then trim_start xs else x ∷ xs

abbrev pub keep_end : ℕ → Text → Text
keep_end x [] = if is_whitespace x then [] else x ∷ []
keep_end x (y ∷ ys) = x ∷ y ∷ ys

unfoldable pub trim_end : Text → Text
unfolding is_whitespace
trim_end [] = []
trim_end (x ∷ xs) = keep_end x (trim_end xs)

-- `str::trim`
unfoldable pub trim : Text → Text
unfolding trim_start trim_end
trim text = trim_end (trim_start text)

-- `str::trim_end_matches` with one character.
abbrev pub keep_unless : ℕ → ℕ → Text → Text
keep_unless c x [] = if x == c then [] else x ∷ []
keep_unless c x (y ∷ ys) = x ∷ y ∷ ys

unfoldable pub trim_end_matches : ℕ → Text → Text
trim_end_matches c [] = []
trim_end_matches c (x ∷ xs) = keep_unless c x (trim_end_matches c xs)

-- `str::strip_prefix`
unfoldable pub strip_prefix : Text → Text → Option Text
strip_prefix [] text = some text
strip_prefix (p ∷ ps) [] = none
strip_prefix (p ∷ ps) (x ∷ xs) = if p == x then strip_prefix ps xs else none

-- `str::split_once` with one character.
unfoldable pub split_once : ℕ → Text → Option (Text × Text)
split_once c [] = none
split_once c (x ∷ xs) =
    if x == c then some ([], xs) else (split_once c xs >>= (λ parts. some (x ∷ parts.0, parts.1)))

abbrev pub last_split : ℕ → ℕ → Text → Option (Text × Text) → Option (Text × Text)
last_split c x xs (some (before, after)) = some (x ∷ before, after)
last_split c x xs none = if x == c then some ([], xs) else none

-- `str::rsplit_once` with one character.
unfoldable pub rsplit_once : ℕ → Text → Option (Text × Text)
rsplit_once c [] = none
rsplit_once c (x ∷ xs) = last_split c x xs (rsplit_once c xs)

abbrev pub push_word : Text → List Text → List Text
push_word [] words = words
push_word (x ∷ xs) words = (x ∷ xs) ∷ words

-- The characters before the first whitespace, and the words behind it.
unfoldable pub words_of : Text → Text × List Text
words_of [] = ([], [])
words_of (x ∷ xs) =
    let (word, words) = words_of xs in
    if is_whitespace x then ([], push_word word words) else (x ∷ word, words)

-- `str::split_whitespace`
unfoldable pub split_whitespace : Text → List Text
unfolding words_of
split_whitespace text = let (word, words) = words_of text in push_word word words

-- `str::split` with one character: the first part and the others.
unfoldable pub parts_of : ℕ → Text → Text × List Text
parts_of c [] = ([], [])
parts_of c (x ∷ xs) =
    let (part, parts) = parts_of c xs in if x == c then ([], part ∷ parts) else (x ∷ part, parts)

unfoldable pub split : ℕ → Text → List Text
unfolding parts_of
split c text = let (part, parts) = parts_of c text in part ∷ parts

-- A line that ends in a line feed loses a carriage return before it.
unfoldable pub strip_return : Text → Text
strip_return [] = []
strip_return (x ∷ []) = if x == 13 then [] else x ∷ []
strip_return (x ∷ y ∷ ys) = x ∷ strip_return (y ∷ ys)

abbrev pub all_lines : Text → List Text → List Text
all_lines [] [] = []
all_lines (x ∷ xs) [] = (x ∷ xs) ∷ []
all_lines first (next ∷ rest) = strip_return first ∷ all_lines next rest

-- `str::lines`
unfoldable pub lines : Text → List Text
unfolding parts_of strip_return
lines text = let (part, parts) = parts_of 10 text in all_lines part parts

-- `#` or the like in front.
unfoldable pub starts_with : ℕ → Text → Bool
starts_with c [] = false
starts_with c (x ∷ xs) = x == c
