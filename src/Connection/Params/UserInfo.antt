-- ===== src/Connection/Params/UserInfo.antt =====
-- Reading the user and the password back from the connection string of postgresql/config.go.
use Prim.Native.Char.{code}
use Prim.Native.String.{[], ◌∷◌, ◌++◌}
use text.Mathlib.TextLemmas.{nil-append, cons-append, append_assoc}
use terraform_provider_postg.Base.{List, String, ap, arith, refl, true, false, ℕ, ◌=ℕ◌, ◌≡◌, ◌∙◌}
use terraform_provider_postg.Connection.{Config}
use terraform_provider_postg.Connection.Params.{conn_text, user_info, address}
use terraform_provider_postg.Text.{join}
use terraform_provider_postg.Text.Escape.{query_escape}
use terraform_provider_postg.Text.Escape.Reading.{
  bytes_with_plus, plain, unescape, unescape-query_escape,
}
use terraform_provider_postg.Text.Escape.Safe.{cut, cut-IsSafe, is_safe, query_escape-IsSafe}

-- The user up to the first colon, the password from there to the first at sign, both unescaped.
abbrev pub read_user_info : String → List ℕ × List ℕ
read_user_info s =
    let (user, behind) = cut b':' s in
    let (password, rest) = cut b'@' behind in (unescape plain user, unescape plain password)

not_colon : (n : ℕ) → is_safe n ≡ true → (n =ℕ code ":") ≡ false
not_colon n h = ground (arith, h)

not_at : (n : ℕ) → is_safe n ≡ true → (n =ℕ code "@") ≡ false
not_at n h = ground (arith, h)

cut_user :
    (user rest : String) → cut b':' (query_escape user ++ (":" ∷ rest)) ≡ (query_escape user, rest)
cut_user user rest = cut-IsSafe ":" not_colon (query_escape user) rest (query_escape-IsSafe user)

cut_password :
    (password rest : String)
    → cut b'@' (query_escape password ++ ("@" ∷ rest)) ≡ (query_escape password, rest)
cut_password password rest =
    cut-IsSafe "@" not_at (query_escape password) rest (query_escape-IsSafe password)

read_escaped :
    (user password rest : String)
    → read_user_info (query_escape user ++ (":" ∷ (query_escape password ++ ("@" ∷ rest))))
      ≡ (bytes_with_plus user, bytes_with_plus password)
read_escaped user password rest =
    rw
      (
        cut_user user (query_escape password ++ ("@" ∷ rest)),
        cut_password password rest,
        unescape-query_escape user,
        unescape-query_escape password,
      )
      refl

as_cons : (u p r : String) → (u ++ (":" ++ p)) ++ ("@" ++ r) ≡ u ++ (":" ∷ (p ++ ("@" ∷ r)))
as_cons u p r =
    append_assoc u (":" ++ p) ("@" ++ r)
    ∙ ap (λ t. u ++ t)
        (ap (λ t. t ++ ("@" ++ r)) (cons-append ":" [] p ∙ ap (λ t. ":" ∷ t) (nil-append p))
          ∙ cons-append ":" p ("@" ++ r)
          ∙ ap (λ t. ":" ∷ (p ++ t)) (cons-append "@" [] r ∙ ap (λ t. "@" ∷ t) (nil-append r)))

module _ {Version : Type 0} where
  -- The text behind the scheme.
  abbrev pub BehindScheme : Config Version → String → String → Type 0
  BehindScheme c whole s = whole ≡ c.scheme ++ ("://" ++ s)

  -- For every configuration, password, database and list of parameters, the connection string is
  -- the scheme and "://" before a text in which the user and the password can be read: they are the
  -- user name of the configuration and the password, in UTF-8, with a plus sign for every space.
  pub read_user_info-conn_text :
      (c : Config Version) (password database : String) (params : List String)
      → (s : String) × BehindScheme c (conn_text c password database params) s
        × (read_user_info s ≡ (bytes_with_plus c.username, bytes_with_plus password))
  unfolding conn_text user_info
  read_user_info-conn_text c password database params =
      let rest = address c ++ ("/" ++ (database ++ ("?" ++ join params "&"))) in
      (
        (query_escape c.username ++ (":" ++ query_escape password)) ++ ("@" ++ rest),
        refl,
        ap read_user_info (as_cons (query_escape c.username) (query_escape password) rest)
            ∙ read_escaped c.username password rest,
      )
