-- ===== src/Connection/Params.antt =====
-- The connection string of postgresql/config.go, and the command of command.go that gives a
-- password.
pub mod Preserved
pub mod Passwords
pub mod Memo
pub mod UserInfo
use Prim.Native.String.{◌++◌}
use terraform_provider_postg.Base.{
  Bool, List, Option, String, [], none, some, if◌then◌else◌, not, ◌&&◌, ◌=ℕ◌, ◌==◌, ◌∷◌,
}
use terraform_provider_postg.Connection.{
  Error, Process, Config, Outside, CommandOutcome, ClientCertificateConfig, ran, ranged,
  record_deed, feature_supported,
}
use terraform_provider_postg.Effect.{
  M, current, fail, modify, pure, wrap, wrapped, feature_fallback_application_name, ◌>>=◌, ◌>>◌,
}
use terraform_provider_postg.Map.{Map, get, put, keys}
use terraform_provider_postg.Text.{join, nonempty, replace_char}
use terraform_provider_postg.Text.Decimal.{format_int, format_nat}
use terraform_provider_postg.Text.Escape.{query_escape}

unfoldable pub certificate_params : Option ClientCertificateConfig → Map String → Map String
certificate_params none params = params
certificate_params (some cert) params =
    put "sslkey" cert.key_path (put "sslcert" cert.certificate_path params)

module _ {Version : Type 0} where
  abbrev pub should_use_jump_host : Config Version → Bool
  should_use_jump_host c = nonempty c.jump_host && not (c.tunneled_port =ℕ 0)

  unfoldable pub get_database_username : Config Version → String
  get_database_username c =
      if nonempty c.config_database_username then c.config_database_username else c.username

  unfoldable pub password_cache_key : Config Version → String
  password_cache_key c = c.host ++ (format_nat c.port ++ c.username)

  -- Where to connect to, with the slashes of a Google Cloud instance.
  unfoldable pub address : Config Version → String
  address c =
      let through_tunnel = should_use_jump_host c in
      let host = if through_tunnel then "localhost" else c.host in
      let port = if through_tunnel then c.tunneled_port else c.port in
      (if c.scheme == "gcppostgres" then replace_char b':' "/" host else host)
      ++ (":" ++ format_nat port)

  unfoldable pub user_info : Config Version → String → String
  user_info c password = query_escape c.username ++ (":" ++ query_escape password)

  -- The text that `connStr` formats, with the parameters that `connParams` gave.
  unfoldable pub conn_text :
      Config Version → (password database : String) → (params : List String) → String
  unfolding address user_info
  conn_text c password database params =
      c.scheme
      ++ ("://"
          ++ (user_info c password
              ++ ("@" ++ (address c ++ ("/" ++ (database ++ ("?" ++ join params "&")))))))

module _ {Version : Type 0} (out : Outside Version) where
  -- The map `params`.
  unfoldable pub param_map : Config Version → Map String
  unfolding certificate_params put
  param_map c =
      let tls : Map String =
        if c.scheme == "postgres"
        then put "connect_timeout" (format_int c.connect_timeout_sec) (put "sslmode" c.ssl_mode [])
        else [] in
      let named =
        if feature_supported out feature_fallback_application_name c.expected_version
        then put "fallback_application_name" c.application_name tls
        else tls in
      let certified = certificate_params c.ssl_client_cert named in
      if nonempty c.ssl_root_cert_path
      then put "sslrootcert" c.ssl_root_cert_path certified
      else certified

  param_text : Map String → String → String
  param_text params key =
      key ++ ("=" ++ query_escape (elim (get key params) [ none ↦ "" | some v ↦ v ]))

  pub param_texts : List String → Map String → List String
  unfolding param_text
  param_texts [] params = []
  param_texts (key ∷ rest) params = param_text params key ∷ param_texts rest params

  unfoldable pub conn_params : Config Version → M (Process Version) (List String)
  unfolding param_texts
  conn_params c = do
    p ← current
    record_deed ranged
    pure (param_texts (out.key_order p.deeds (keys (param_map c))) (param_map c))

  command_result : String → List String → CommandOutcome → Option Error → M (Process Version) String
  command_result command args o none = pure o.stdout
  command_result command args o (some e) = fail (
      wrapped
        ("failed to run "
          ++ (command
              ++ (" ["
                  ++ (join args " " ++ ("] stdout " ++ (o.stdout ++ (" stderr " ++ o.stderr)))))))
        e)

  unfoldable pub get_command_output : String → List String → M (Process Version) String
  unfolding command_result
  get_command_output command args = do
    p ← current
    record_deed (ran command args)
    let o = out.run_command p.deeds command args
    command_result command args o o.run_error

  fetch_password : String → M (Process Version) String
  fetch_password cache_key = do
    p ← current
    new_password ←
        wrap "failed to execute the password command"
          (get_command_output "bash" ("-ec" ∷ p.config.password_command ∷ []))
    modify (λ q. record q { password_cache = put cache_key new_password q.password_cache })
    pure new_password

  cached_or_fetched : String → Option String → M (Process Version) String
  unfolding fetch_password
  cached_or_fetched cache_key (some password) = pure password
  cached_or_fetched cache_key none = fetch_password cache_key

  unfoldable pub get_cached_password : M (Process Version) String
  unfolding cached_or_fetched
  get_cached_password = do
    p ← current
    cached_or_fetched (password_cache_key p.config)
        (get (password_cache_key p.config) p.password_cache)

  -- The password is not logged here, as all logging is left out.
  unfoldable pub password_of : Config Version → M (Process Version) String
  unfolding get_cached_password
  password_of c =
      if nonempty c.password_command && not c.fallback_to_static_password
      then wrap "" get_cached_password
      else pure c.password

  unfoldable pub conn_str : String → M (Process Version) String
  unfolding conn_params conn_text password_of
  conn_str database = do
    p ← current
    password ← password_of p.config
    params ← conn_params p.config
    pure (conn_text p.config password database params)
