-- ===== src/Connection/Params/Passwords.antt =====
-- The cache of passwords of postgresql/config.go.
use Prim.Native.Nat.{◌*◌}
use Prim.Native.String.{◌++◌}
use text.Mathlib.TextLemmas.{append_assoc}
use terraform_provider_postg.Base.{
  List, Option, String, [], ◌∷◌, ap, none, some, refl, eq_refl, ℕ, ◌+◌, ◌≡◌, ◌<◌, ◌∙◌,
}
use terraform_provider_postg.Connection.{ran, CommandOutcome, Config, Process, Outside, record_deed}
use terraform_provider_postg.Connection.Params.{
  get_cached_password, cached_or_fetched, fetch_password, get_command_output, command_result,
  password_cache_key,
}
use terraform_provider_postg.Effect.{Env, Error, Session, ok, modify, pure, fail, wrap, ◌>>=◌}
use terraform_provider_postg.Effect.OnOk.{OnOk, OnOk-weaken}
use terraform_provider_postg.Map.{get, put}
use terraform_provider_postg.Map.Laws.{get-put}
use terraform_provider_postg.Text.Decimal.{digit, format_nat}
use terraform_provider_postg.Text.Decimal.Printing.{format_nat-last}

module _ {Version : Type 0} where
  -- The session with another port and user in the configuration.
  abbrev pub for_user : ℕ → String → Session (Process Version) → Session (Process Version)
  for_user port username s = record s {
    res = record (s.res) { config = record (s.res.config) { port = port; username = username } };
  }

module _ {Version : Type 0} (out : Outside Version) (env : Env) where
  -- The password is cached, and the configuration is as before.
  abbrev pub Cached : Config Version → String → String → Session (Process Version) → Type 0
  Cached c key password s = (get key s.res.password_cache ≡ some password) × (s.res.config ≡ c)

  ran-Cached :
      (key command : String) (args : List String) (o : CommandOutcome) (e : Option Error)
      (s : Session (Process Version))
      → OnOk (Cached s.res.config key) (
          (wrap "failed to execute the password command" (command_result out command args o e)
              >>= λ new_password.
                  modify (λ q. record q { password_cache = put key new_password q.password_cache })
                  >>= λ _. pure new_password)
            env s)
  unfolding command_result wrap modify pure fail ◌>>=◌
  ran-Cached key command args o none s =
      (get-put key key o.stdout s.res.password_cache ∙ rw (eq_refl key) refl, refl)
  ran-Cached key command args o (some e) s = tt

  cached_or_fetched-Cached :
      (key : String) (o : Option String) (s : Session (Process Version))
      → get key s.res.password_cache ≡ o
      → OnOk (Cached s.res.config key) (cached_or_fetched out key o env s)
  unfolding cached_or_fetched fetch_password get_command_output record_deed wrap ◌>>=◌
  cached_or_fetched-Cached key (some password) s e = (e, refl)
  cached_or_fetched-Cached key none s e =
      let args : List String = "-ec" ∷ s.res.config.password_command ∷ [] in
      let o = out.run_command s.res.deeds "bash" args in
      ran-Cached key "bash" args o o.run_error
        (record s { res = record (s.res) { deeds = ran "bash" args ∷ s.res.deeds } })

  pub get_cached_password-Cached :
      (s : Session (Process Version))
      → OnOk (Cached s.res.config (password_cache_key s.res.config)) (get_cached_password out env s)
  unfolding get_cached_password ◌>>=◌
  get_cached_password-Cached s = cached_or_fetched-Cached (password_cache_key s.res.config) _ s refl

  pub get_cached_password-hit :
      (s : Session (Process Version)) (password : String)
      → get (password_cache_key s.res.config) s.res.password_cache ≡ some password
      → get_cached_password out env s ≡ (ok password, s)
  unfolding get_cached_password cached_or_fetched ◌>>=◌
  get_cached_password-hit s password e = rw e refl

  -- The keys of the cache for a user with a digit in front and for the user without it on the port
  -- that has the digit behind.
  pub password_cache_key-shared :
      (c : Config Version) (n d : ℕ) (user : String)
      → 0 < n
      → d < 10
      → password_cache_key (record c { port = n * 10 + d; username = user })
        ≡ password_cache_key (record c { port = n; username = digit d ++ user })
  unfolding password_cache_key
  password_cache_key-shared c n d user h k =
      ap (λ t. c.host ++ (t ++ user)) (format_nat-last n d h k)
      ∙ ap (λ t. c.host ++ t) (append_assoc (format_nat n) (digit d) user)

  get_cached_password-again :
      (s : Session (Process Version))
      → OnOk
          (λ password t. get_cached_password out env t ≡ (ok password, t))
          (get_cached_password out env s)
  get_cached_password-again s =
      OnOk-weaken _ (Cached s.res.config (password_cache_key s.res.config))
        (get_cached_password out env s)
        (λ password t (e, c).
          get_cached_password-hit t password
            (ap (λ x. get (password_cache_key x) t.res.password_cache) c ∙ e))
        (get_cached_password-Cached s)

  given_without_digit :
      (s : Session (Process Version)) (n d : ℕ) (user : String)
      → 0 < n
      → d < 10
      → OnOk
          (λ password t.
            get_cached_password out env (for_user (n * 10 + d) user t)
            ≡ (ok password, for_user (n * 10 + d) user t))
          (get_cached_password out env (for_user n (digit d ++ user) s))
  given_without_digit s n d user h k =
      OnOk-weaken _
        (Cached (for_user n (digit d ++ user) s).res.config
          (password_cache_key (for_user n (digit d ++ user) s).res.config))
        (get_cached_password out env (for_user n (digit d ++ user) s))
        (λ password t (e, c). get_cached_password-hit (for_user (n * 10 + d) user t) password (
          ap
            (λ x.
              get (password_cache_key (record x { port = n * 10 + d; username = user }))
                t.res.password_cache)
            c
          ∙ ap (λ key. get key t.res.password_cache)
              (password_cache_key-shared s.res.config n d user h k)
          ∙ e))
        (get_cached_password-Cached (for_user n (digit d ++ user) s))

  -- A password that `getCachedPassword` gave, for whatever user and port, is given again by the
  -- cache alone: no command is run and nothing changes. And the password that it gave for a user
  -- that begins with a digit, on a port above zero, is given in the same way to the user without
  -- that digit on the port that has the digit behind.
  pub get_cached_password-shared :
      (s : Session (Process Version)) (n d : ℕ) (user : String)
      → 0 < n
      → d < 10
      → OnOk
          (λ password t. get_cached_password out env t ≡ (ok password, t))
          (get_cached_password out env s)
        × OnOk
            (λ password t.
              get_cached_password out env (for_user (n * 10 + d) user t)
              ≡ (ok password, for_user (n * 10 + d) user t))
            (get_cached_password out env (for_user n (digit d ++ user) s))
  get_cached_password-shared s n d user h k =
      (get_cached_password-again s, given_without_digit s n d user h k)
