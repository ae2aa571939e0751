-- ===== src/Client/Credentials/Parsed.antt =====
-- The server reads the client's credentials from the header that the client computes.
use ssh.Base.{◌≡◌, ap, ◌∙◌, sym, Bytes, Option, none, some, ltb, Bool-cases, inl, inr}
use ssh.Io.{ok, err}
use ssh.Text.{Text}
use ssh.Text.Split.{Lacks}
use ssh.Text.Words.{IsWord}
use ssh.Auth.{bearer_authorization_value}
use ssh.Server.Request.{RequestAuthorization, nobody, basic, bearer, parse_authorization_value}
use ssh.Server.Request.Credentials.{
  AreInverse, parse_authorization_value-basic_authorization_value,
  parse_authorization_value-bearer_authorization_value,
}
use ssh.Client.Credentials.{
  ClientConfig, CredentialsError, trimmed_token, auth_method_count, basic_authorization_value,
  password_header, token_or_password_header, precomputed_authorization_header,
}

-- What the client presents: a token before a user with a password.
abbrev pub credentials : Option Text → Option Text → Option Text → RequestAuthorization
credentials (some token) username password = bearer token
credentials none (some username) (some password) = basic username password
credentials none username none = nobody
credentials none none (some password) = nobody

abbrev pub IsWordIfSome : Option Text → Type 0
IsWordIfSome none = Unit {0}
IsWordIfSome (some token) = IsWord token

abbrev pub LacksColonIfSome : Option Text → Type 0
LacksColonIfSome none = Unit {0}
LacksColonIfSome (some username) = Lacks b':' username

module _ (encode : Bytes → Text) (decode : Text → Option Bytes) (as_bytes : Text → Bytes)
    (from_utf8 : Bytes → Option Text) (inverse : AreInverse encode decode as_bytes from_utf8) where
  header_understood :
      (token username password : Option Text) (header : Text)
      → IsWordIfSome token
      → LacksColonIfSome username
      → token_or_password_header encode as_bytes token username password ≡ ok (some header)
      → parse_authorization_value decode from_utf8 header ≡ credentials token username password
  unfolding token_or_password_header password_header
  header_understood (some token) username password header word lacks h =
      let same : bearer_authorization_value token ≡ header = cc in
      ap (parse_authorization_value decode from_utf8) (sym same)
      ∙ parse_authorization_value-bearer_authorization_value decode from_utf8 token word
  header_understood none (some username) (some password) header word lacks h =
      let same : basic_authorization_value encode as_bytes username password ≡ header = cc in
      ap (parse_authorization_value decode from_utf8) (sym same)
      ∙ parse_authorization_value-basic_authorization_value encode decode as_bytes from_utf8 inverse
          username password lacks
  header_understood none none (some password) header word lacks h = absurd cc
  header_understood none username none header word lacks h = absurd cc

  -- If base64 and UTF-8 give back what they were given, the server reads, of the header that the
  -- client computes, the client's token, or its user and password, for a token that is one word and
  -- a user without a colon in the name.
  pub parse_authorization_value-precomputed_authorization_header :
      (config : ClientConfig) (header : Text)
      → IsWordIfSome (trimmed_token config.bearer_token)
      → LacksColonIfSome config.username
      → precomputed_authorization_header encode as_bytes config ≡ ok (some header)
      → parse_authorization_value decode from_utf8 header
        ≡ credentials (trimmed_token config.bearer_token) config.username config.password
  unfolding precomputed_authorization_header
  parse_authorization_value-precomputed_authorization_header config header word lacks h =
      elim (Bool-cases (ltb 1 (auth_method_count config))) [
        | inl conflicting ↦
            let refused : err CredentialsError.conflicting_authentication_methods
                ≡ ok (some header) =
              rw (← h, conflicting) in
            absurd cc
        | inr single ↦
            header_understood (trimmed_token config.bearer_token) config.username config.password
              header word lacks (rw (← h, single))
      ]
