-- ===== src/Connection/Connect/Preserved.antt =====
-- What connecting, in postgresql/config.go, leaves of the process's state, however it ends.
use terraform_provider_postg.Base.{◌∙◌, true, sym, ap, false, ◌≡◌, Bool, Option, String, none, some}
use terraform_provider_postg.Connection.{Error, Config, DbConnection, Process, Outside}
use terraform_provider_postg.Connection.Stable.{PasswordsFree, Stable, deed-Preserves}
use terraform_provider_postg.Connection.Params.Preserved.{conn_str-Preserves}
use terraform_provider_postg.Connection.Open.Preserved.{
  open_connection-Preserves, detect_version-Preserves,
}
use terraform_provider_postg.Connection.Connect.{
  set_fallback, err, ok, ◌>>=◌, Result, or_crash, after_first, connect_client, defer,
  try_connect_with_fallback, retry_static, connect, found_or_new, new_connection, reuse,
}
use terraform_provider_postg.Connection.Tunnel.Preserved.{connect_to_jump_host-Preserves}
use terraform_provider_postg.Base.{refl}
use terraform_provider_postg.Effect.{
  Env, Result, Session, ok, err, panic, modify, defer, or_crash, ◌>>=◌,
}
use terraform_provider_postg.Effect.Preserves.{
  Preserves-wrap, Preserves-pure, Preserves, preserves_rules, Preserves-modify, Preserves-bind,
  Preserves-current, Preserves-if, Preserves-fail,
}
use terraform_provider_postg.Map.{put, remove}

module _ {Version : Type 0} (I : Process Version → Type 0) (stable : Stable I)
    (out : Outside Version) where
  removed-Preserves :
      (dsn : String)
      → Preserves I (modify (λ p. record p { db_registry = remove dsn p.db_registry }))
  removed-Preserves dsn = Preserves-modify I _ (λ p i. stable.remove_ok p dsn i)

  put-Preserves :
      (conn : DbConnection Version)
      → Preserves I (modify (λ p. record p { db_registry = put conn.dsn conn p.db_registry }))
  put-Preserves conn = Preserves-modify I _ (λ p i. stable.put_ok p conn i)

  reuse-Preserves :
      (dsn : String) (conn : DbConnection Version) (e : Option Error)
      → Preserves I (reuse dsn conn e)
  unfolding reuse
  reuse-Preserves dsn conn none = search preserves_rules
  reuse-Preserves dsn conn (some e) = search (preserves_rules, removed-Preserves) depth 12

  put_under-Preserves :
      (dsn : String) (version : Version)
      → Preserves I (
          modify (λ p. record p {
            db_registry = put dsn (record { dsn = dsn; conn_version = version }) p.db_registry;
          }))
  put_under-Preserves dsn version = put-Preserves (record { dsn = dsn; conn_version = version })

  new-Preserves : (dsn : String) → Preserves I (new_connection out dsn)
  unfolding new_connection
  new-Preserves dsn =
      search
        (
          preserves_rules,
          deed-Preserves I stable,
          open_connection-Preserves I stable out,
          detect_version-Preserves I stable out,
          put_under-Preserves,
        )
        depth 20

  pub found-Preserves :
      (dsn : String) (o : Option (DbConnection Version)) → Preserves I (found_or_new out dsn o)
  unfolding found_or_new
  found-Preserves dsn (some conn) =
      search (preserves_rules, deed-Preserves I stable, reuse-Preserves) depth 16
  found-Preserves dsn none = new-Preserves dsn

  pub connect-Preserves : PasswordsFree I → Preserves I (connect out)
  unfolding connect
  connect-Preserves free =
      search (preserves_rules, conn_str-Preserves I stable free out, found-Preserves) depth 16

module _ {Version : Type 0} (I : Process Version → Type 0) (stable : Stable I)
    (out : Outside Version) (free : PasswordsFree I)
    (retried : Preserves I (retry_static out)) where
  after_first-Preserves : (r : Result (DbConnection Version)) → Preserves I (after_first out r)
  unfolding after_first
  after_first-Preserves (ok conn) = search preserves_rules
  after_first-Preserves (err e) =
      Preserves-bind I _ _ (Preserves-current I)
        λ p. Preserves-if I _ _ _ retried (Preserves-fail I _)
  after_first-Preserves panic = search preserves_rules

  try-Preserves : Preserves I (try_connect_with_fallback out)
  unfolding try_connect_with_fallback
  try-Preserves = record {
    at = λ env s i.
        (after_first-Preserves (connect out env s).0).at env (connect out env s).1
          ((connect-Preserves I stable out free).at env s i);
  }

  pub connect_client-Preserves : Preserves I (connect_client out)
  unfolding connect_client
  connect_client-Preserves = Preserves-bind I _ _ (Preserves-current I) λ p.
      Preserves-bind I _ _
        (Preserves-if I _ _ _ (Preserves-wrap I _ _ (connect_to_jump_host-Preserves I stable out))
          (Preserves-pure I tt))
        λ _. try-Preserves

module _ {Version : Type 0} (out : Outside Version) where
  abbrev pub ConfigIs : Config Version → Process Version → Type 0
  ConfigIs c p = p.config ≡ c

  ConfigIs-Stable : (c : Config Version) → Stable (ConfigIs c)
  ConfigIs-Stable c = record {
    deeds_ok = λ p ds i. i;
    tunnels_ok = λ p ports i. i;
    remove_ok = λ p dsn i. i;
    put_ok = λ p conn i. i;
  }

  abbrev with_flag : Bool → Config Version → Config Version
  with_flag b c = record c { fallback_to_static_password = b }

  same_flag : (c : Config Version) → c.fallback_to_static_password ≡ false → with_flag false c ≡ c
  same_flag c h = ap (λ b. with_flag b c) (sym h)

  retry-ConfigIs :
      (c : Config Version)
      → c.fallback_to_static_password ≡ false
      → Preserves (ConfigIs c) (retry_static out)
  unfolding retry_static defer or_crash modify ◌>>=◌
  retry-ConfigIs c h = record {
    at = λ env s i.
        ap (with_flag false) (
          (connect-Preserves (ConfigIs (with_flag true c)) (ConfigIs-Stable (with_flag true c)) out
              (λ p m k. k)).at
            env (record s { res = set_fallback true s.res }) (ap (with_flag true) i))
        ∙ same_flag c h;
  }

  -- Whether connecting succeeds, fails or panics, and whether it falls back to the static password
  -- or not: if the configuration did not have the fallback switched on before, the client's
  -- configuration is the same behind it.
  pub connect_client-config :
      (env : Env) (s : Session (Process Version))
      → s.res.config.fallback_to_static_password ≡ false
      → (connect_client out env s).1.res.config ≡ s.res.config
  connect_client-config env s h =
      (connect_client-Preserves (ConfigIs s.res.config) (ConfigIs-Stable s.res.config) out
          (λ p m i. i) (retry-ConfigIs s.res.config h)).at
        env s refl
