-- ===== src/Auth/Listed.antt =====
-- Which identities the files of authorized identities list.
pub mod Files
use ssh.Base.{
  ◌≢◌, subst, ◌≡◌, refl, sym, ap, ◌↔◌, ◌⊎◌, inl, inr, List, [], ◌∷◌, ◌++◌, Memᴰ, Option, none, some,
  All, codes,
}
use mathlib.Core.List.Memᴰ.{
  head, tail, cases_cons, not-nil, append_left, append_right, append_cases,
}
use ssh.Io.{IoError, not_found, Result, ok, err}
use ssh.Io.Fallible.{>>=-inv}
use ssh.Text.{is_whitespace, Text, lines}
use ssh.Text.Words.{IsWord, split_whitespace-append, split_whitespace_word}
use ssh.Auth.{io, OidcIdentity, AuthorizedIdentity}
use ssh.Auth.Identities.{
  parse_oidc_identity, push_some, parse_line, parse_lines, parse_authorized_identities,
  extend_identities, load_loop, load_authorized_identities_from_paths,
}

abbrev pub spaced : Text → Text → Text
spaced before after = before ++ b' ' ∷ after

oidc-IsWord : IsWord (codes "oidc")
unfolding is_whitespace
oidc-IsWord = (refl, (refl, (refl, (refl, tt))))

-- The line of an identity whose fields are words is read back as this identity.
pub parse_oidc_identity-fields :
    (identity : OidcIdentity)
    → IsWord identity.client_id
    → IsWord identity.issuer_url
    → IsWord identity.email
    → parse_oidc_identity (
        spaced
          (codes "oidc")
          (spaced identity.client_id (spaced identity.issuer_url identity.email)))
      ≡ some identity
unfolding parse_oidc_identity
parse_oidc_identity-fields identity client issuer email =
    rw
      (
        split_whitespace-append (codes "oidc")
            (spaced identity.client_id (spaced identity.issuer_url identity.email)) oidc-IsWord,
        split_whitespace-append identity.client_id (spaced identity.issuer_url identity.email)
            client,
        split_whitespace-append identity.issuer_url identity.email issuer,
        split_whitespace_word identity.email email,
      )
      refl

module _ {ℓ} {PublicKey : Type ℓ} (parse_entry : Text → Option PublicKey) where
  -- A line of the text says the identity.
  abbrev pub Says : AuthorizedIdentity PublicKey → Text → Type ℓ
  Says identity contents =
      (line : Text) × Memᴰ line (lines contents) × (parse_line parse_entry line ≡ some identity)

  mem-push_some :
      (identity : AuthorizedIdentity PublicKey) (read : Option (AuthorizedIdentity PublicKey))
      (rest : List (AuthorizedIdentity PublicKey))
      → Memᴰ identity (push_some parse_entry read rest)
      → (read ≡ some identity) ⊎ Memᴰ identity rest
  mem-push_some identity none rest h = inr h
  mem-push_some identity (some first) rest h = elim (cases_cons h) [
    | inl e ↦ inl (ap some (sym e))
    | inr later ↦ inr later
  ]

  mem_later :
      (identity : AuthorizedIdentity PublicKey) (read : Option (AuthorizedIdentity PublicKey))
      (rest : List (AuthorizedIdentity PublicKey))
      → Memᴰ identity rest
      → Memᴰ identity (push_some parse_entry read rest)
  mem_later identity none rest h = h
  mem_later identity (some first) rest h = tail h

  parse_lines-mem :
      (identity : AuthorizedIdentity PublicKey) (all : List Text)
      → Memᴰ identity (parse_lines parse_entry all)
      → (line : Text) × Memᴰ line all × (parse_line parse_entry line ≡ some identity)
  unfolding parse_lines
  parse_lines-mem identity [] h = absurd (not-nil h)
  parse_lines-mem identity (line ∷ rest) h = elim (mem-push_some identity _ _ h) [
    | inl said ↦ (line, head refl, said)
    | inr later ↦
        let (found, place, said) = parse_lines-mem identity rest later in (found, tail place, said)
  ]

  mem-parse_lines :
      (identity : AuthorizedIdentity PublicKey) (line : Text) (all : List Text)
      → Memᴰ line all
      → parse_line parse_entry line ≡ some identity
      → Memᴰ identity (parse_lines parse_entry all)
  unfolding parse_lines
  mem-parse_lines identity line [] place said = absurd (not-nil place)
  mem-parse_lines identity line (first ∷ rest) (head e) said =
      let read : parse_line parse_entry first ≡ some identity = rw (← e) said in
      rw (read) (head refl)
  mem-parse_lines identity line (first ∷ rest) (tail later) said =
      mem_later identity _ _ (mem-parse_lines identity line rest later said)

  -- A file lists exactly the identities that its lines say.
  pub parse_authorized_identities_iff :
      (identity : AuthorizedIdentity PublicKey) (contents : Text)
      → Memᴰ identity (parse_authorized_identities parse_entry contents) ↔ Says identity contents
  unfolding parse_authorized_identities
  parse_authorized_identities_iff identity contents = (
    parse_lines-mem identity (lines contents),
    λ (line, place, said). mem-parse_lines identity line (lines contents) place said,
  )
