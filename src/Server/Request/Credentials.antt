-- ===== src/Server/Request/Credentials.antt =====
-- The `authorization` headers that the client sends are what the server reads.
use ssh.Base.{◌≡◌, refl, Bytes, [], ◌∷◌, ◌++◌, true, Option, none, some, ltb, length, codes, arith}
use ssh.Text.{Text, eq_ignore_ascii_case}
use ssh.Text.Split.{Lacks, split_once-append}
use ssh.Text.Words.{IsWord, HasNoSpace, trim_word}
use ssh.Auth.{bearer_authorization_value}
use ssh.Client.Credentials.{basic_authorization_value}
use ssh.Server.Request.{
  basic, bearer, strip_scheme, parse_basic, basic_or, parse_authorization_value,
}

strip_scheme_basic :
    (text : Text)
    → HasNoSpace text
    → strip_scheme (codes "Basic " ++ text) (codes "Basic") ≡ some text
unfolding strip_scheme eq_ignore_ascii_case
strip_scheme_basic text h =
    let longer : ltb 5 (length (codes "Basic " ++ text)) ≡ true = ground arith in
    rw (longer, trim_word text h) refl

strip_scheme_bearer :
    (text : Text)
    → HasNoSpace text
    → strip_scheme (codes "Bearer " ++ text) (codes "Bearer") ≡ some text
unfolding strip_scheme eq_ignore_ascii_case
strip_scheme_bearer text h =
    let longer : ltb 6 (length (codes "Bearer " ++ text)) ≡ true = ground arith in
    rw (longer, trim_word text h) refl

strip_scheme_other : (text : Text) → strip_scheme (codes "Bearer " ++ text) (codes "Basic") ≡ none
unfolding strip_scheme eq_ignore_ascii_case
strip_scheme_other text =
    let longer : ltb 5 (length (codes "Bearer " ++ text)) ≡ true = ground arith in rw (longer) refl

module _ (encode : Bytes → Text) (decode : Text → Option Bytes) (as_bytes : Text → Bytes)
    (from_utf8 : Bytes → Option Text) where
  -- What base64 and UTF-8 promise: no whitespace in the alphabet, and what was encoded comes back.
  pub record AreInverse : Type 0 where
    pub no_space : (bs : Bytes) → HasNoSpace (encode bs)
    pub decode-encode : (bs : Bytes) → decode (encode bs) ≡ some bs
    pub from_utf8-as_bytes : (text : Text) → from_utf8 (as_bytes text) ≡ some text

  -- If base64 and UTF-8 give back what they were given, the server reads the user and the password
  -- of the header that the client sends, for a user without a colon in the name.
  pub parse_authorization_value-basic_authorization_value :
      AreInverse
      → (username password : Text) → Lacks b':' username
      → parse_authorization_value decode from_utf8
          (basic_authorization_value encode as_bytes username password)
        ≡ basic username password
  unfolding parse_authorization_value basic_or parse_basic basic_authorization_value
  parse_authorization_value-basic_authorization_value inverse username password h =
      let pair : Text = username ++ b':' ∷ password in
      rw
        (
          strip_scheme_basic (encode (as_bytes pair)) (inverse.no_space _),
          inverse.decode-encode (as_bytes pair),
          inverse.from_utf8-as_bytes pair,
          split_once-append b':' username password h,
        )
        refl

-- A token that is one word is what the server reads of the header that carries it.
pub parse_authorization_value-bearer_authorization_value :
    (decode : Text → Option Bytes) (from_utf8 : Bytes → Option Text) (token : Text)
    → IsWord token
    → parse_authorization_value decode from_utf8 (bearer_authorization_value token) ≡ bearer token
unfolding parse_authorization_value basic_or bearer_authorization_value
parse_authorization_value-bearer_authorization_value decode from_utf8 [] h = absurd h
parse_authorization_value-bearer_authorization_value decode from_utf8 (c ∷ cs) h =
    rw (strip_scheme_other (c ∷ cs), strip_scheme_bearer (c ∷ cs) h) refl
