-- ===== src/Connection/Connect/Again.antt =====
-- Connecting twice, in postgresql/config.go.
use terraform_provider_postg.Base.{
  Bool-cases, List, String, [], false, ◌==◌, ◌∷◌, ap, none, some, inl, inr, refl, sym, ◌≡◌, ◌∙◌,
  ◌&&◌, not,
}
use terraform_provider_postg.Connection.{
  Config, DbConnection, Deed, Process, Outside, ranged, reused, record_deed, feature_supported,
}
use terraform_provider_postg.Connection.Stable.{Stable}
use terraform_provider_postg.Connection.Params.{
  certificate_params, conn_params, param_map, param_texts, conn_str, conn_text, password_of,
  get_cached_password, password_cache_key,
}
use terraform_provider_postg.Connection.Params.Passwords.{
  Cached, get_cached_password-Cached, get_cached_password-hit,
}
use terraform_provider_postg.Connection.Params.Preserved.{conn_str-Preserves}
use terraform_provider_postg.Connection.Connect.{connect, found_or_new, reuse}
use terraform_provider_postg.Connection.Connect.Preserved.{found-Preserves}
use terraform_provider_postg.Connection.Connect.Registered.{
  RegistryKeyed, RegistryKeyed-Stable, StandsUnder, OnOk-Preserves, found-StandsUnder,
}
use terraform_provider_postg.Effect.{
  continue, feature_fallback_application_name, Env, M, Result, Session, ok, err, panic, pure, wrap,
  ◌>>=◌,
}
use terraform_provider_postg.Effect.OnOk.{OnOk, OnOk-bind, OnOk-wrap, OnOk-weaken}
use terraform_provider_postg.Map.{get, keys, put, remove}
use terraform_provider_postg.Text.{nonempty}

module _ {Version : Type 0} where
  -- The sessions agree on what the connection string depends on.
  abbrev pub SameInput : Session (Process Version) → Session (Process Version) → Type 0
  SameInput t u =
      (u.res.config ≡ t.res.config)
      × (u.res.password_cache ≡ t.res.password_cache)
      × (u.res.database_name ≡ t.res.database_name)

  -- The session behind one range over a map.
  abbrev pub ranged_by : Session (Process Version) → Session (Process Version)
  ranged_by t = record t { res = record (t.res) { deeds = ranged ∷ t.res.deeds } }

  -- The session behind a ping of a connection that the registry gave.
  abbrev pub reused_by :
      DbConnection Version → Session (Process Version) → Session (Process Version)
  reused_by conn t = record t { res = record (t.res) { deeds = reused conn.dsn ∷ t.res.deeds } }

  -- A client for a scheme other than "postgres", without certificates.
  abbrev pub IsBare : Config Version → Type 0
  IsBare c =
      ((c.scheme == "postgres") ≡ false)
      × (c.ssl_client_cert ≡ none)
      × (nonempty c.ssl_root_cert_path ≡ false)

  -- A range over a map with at most one key visits that key.
  pub record RangesShort (out : Outside Version) : Type 0 where
    pub none_visited : (ds : List Deed) → out.key_order ds [] ≡ []
    pub one_visited : (ds : List Deed) (key : String) → out.key_order ds (key ∷ []) ≡ key ∷ []

module _ {Version : Type 0} (out : Outside Version) (ranges : RangesShort out)
    (c : Config Version) where
  -- Such a client has one parameter at most, so their order is always the same.
  same_order :
      (ds ds' : List Deed)
      → IsBare c
      → out.key_order ds (keys (param_map out c)) ≡ out.key_order ds' (keys (param_map out c))
  unfolding param_map certificate_params put remove keys
  same_order ds ds' (scheme, cert, root) =
      elim (Bool-cases
        (feature_supported out feature_fallback_application_name c.expected_version)) [
          | inl e ↦
              rw (scheme, cert, root, e) (ranges.one_visited ds _ ∙ sym (ranges.one_visited ds' _))
          | inr e ↦
              rw (scheme, cert, root, e) (ranges.none_visited ds ∙ sym (ranges.none_visited ds'))
        ]

module _ {Version : Type 0} (out : Outside Version) (env : Env) where
  -- From every such session the program gives the same, and changes nothing.
  abbrev Repeats : {A : Type 0} → M (Process Version) A → A → Session (Process Version) → Type 0
  Repeats m a t = (u : Session (Process Version)) → SameInput t u → m env u ≡ (ok a, u)

  hit :
      (c : Config Version) (password : String) (t u : Session (Process Version))
      → Cached out env c (password_cache_key c) password t
      → SameInput t u
      → wrap "" (get_cached_password out) env u ≡ (ok password, u)
  unfolding wrap
  hit c password t u (e, tc) (uc, um, ud) =
      rw
        (get_cached_password-hit out env u password (
          ap (λ x. get (password_cache_key x) u.res.password_cache) (uc ∙ tc)
          ∙ ap (λ m. get (password_cache_key c) m) um
          ∙ e))
        refl

  -- What holds behind a program that can be repeated.
  abbrev RepeatsFrom :
      {A : Type 0} → Config Version → M (Process Version) A → A → Session (Process Version) → Type 0
  RepeatsFrom c m a t = Repeats m a t × (t.res.config ≡ c)

  cached-Repeats :
      (s : Session (Process Version))
      → OnOk
          (RepeatsFrom s.res.config (wrap "" (get_cached_password out)))
          (wrap "" (get_cached_password out) env s)
  cached-Repeats s =
      OnOk-wrap (RepeatsFrom s.res.config (wrap "" (get_cached_password out))) ""
        (get_cached_password out) env s
        (OnOk-weaken (RepeatsFrom s.res.config (wrap "" (get_cached_password out)))
          (Cached out env s.res.config (password_cache_key s.res.config))
          (get_cached_password out env s)
          (λ password t h. (λ u same. hit s.res.config password t u h same, h.1))
          (get_cached_password-Cached out env s))

  password_of-Repeats :
      (s : Session (Process Version))
      → OnOk
          (RepeatsFrom s.res.config (password_of out s.res.config))
          (password_of out s.res.config env s)
  unfolding password_of pure
  password_of-Repeats s =
      elim (Bool-cases
        (nonempty s.res.config.password_command && not s.res.config.fallback_to_static_password)) [
          | inl e ↦ rw e (cached-Repeats s)
          | inr e ↦ rw e (λ u same. refl, refl)
        ]

  -- The rest of `conn_str`, behind the password.
  abbrev with_password :
      String
      → Config Version
      → Result String × Session (Process Version)
      → Result String × Session (Process Version)
  with_password database c o =
      continue o.0
        (λ password. conn_params out c >>= λ params. pure (conn_text c password database params))
        env o.1

  -- The connection string with the parameters in this order.
  abbrev ordered : String → Config Version → String → List String → String
  ordered database c password order =
      conn_text c password database (param_texts out order (param_map out c))

  -- From every such session `conn_str` gives the same, and does no more than to range over a map.
  abbrev GivesAgain : String → String → Session (Process Version) → Type 0
  GivesAgain database dsn t =
      (u : Session (Process Version))
      → SameInput t u
      → conn_str out database env u ≡ (ok dsn, ranged_by u)

  conn_str-GivesAgain :
      RangesShort out
      → (s : Session (Process Version)) (database : String) → IsBare s.res.config
      → OnOk (GivesAgain database) (conn_str out database env s)
  unfolding conn_str conn_params record_deed pure ◌>>=◌
  conn_str-GivesAgain ranges s database bare =
      OnOk-bind (GivesAgain database) (RepeatsFrom s.res.config (password_of out s.res.config))
        (password_of out s.res.config) _ env s (password_of-Repeats s)
        λ password t (r, c) u same.
          ap (λ x. with_password database x (password_of out x env u)) (same.0 ∙ c)
          ∙ ap (with_password database s.res.config) (r u same)
          ∙ ap (λ order. (ok (ordered database s.res.config password order), ranged_by u))
              (same_order out ranges s.res.config u.res.deeds t.res.deeds bare)

  again :
      (dsn : String) (conn : DbConnection Version) (t : Session (Process Version))
      → conn_str out t.res.database_name env t ≡ (ok dsn, ranged_by t)
      → conn.dsn ≡ dsn
      → get dsn t.res.db_registry ≡ some conn
      → out.query_error (ranged ∷ t.res.deeds) dsn ≡ none
      → connect out env t ≡ (ok conn, reused_by conn (ranged_by t))
  unfolding connect found_or_new reuse record_deed wrap pure ◌>>=◌
  again dsn conn t p d g q = rw (p, g, q, d) refl

  abbrev InputIs : Session (Process Version) → Process Version → Type 0
  InputIs t p =
      (p.config ≡ t.res.config)
      × (p.password_cache ≡ t.res.password_cache)
      × (p.database_name ≡ t.res.database_name)

  InputIs-Stable : (t : Session (Process Version)) → Stable (InputIs t)
  InputIs-Stable t = record {
    deeds_ok = λ p ds i. i;
    tunnels_ok = λ p ports i. i;
    remove_ok = λ p dsn i. i;
    put_ok = λ p conn i. i;
  }

  OnOk-both :
      {A : Type 0}
      → (Q R : A → Session (Process Version) → Type 0) (o : Result A × Session (Process Version))
      → OnOk Q o
      → OnOk R o
      → OnOk (λ a t. Q a t × R a t) o
  OnOk-both Q R (ok a, s) q r = (q, r)
  OnOk-both Q R (err e, s) q r = tt
  OnOk-both Q R (panic, s) q r = tt

  found-InputIs :
      (dsn : String) (t : Session (Process Version))
      → RegistryKeyed t.res
      → OnOk
          (λ conn u. StandsUnder out dsn conn u × InputIs t u.res)
          (found_or_new out dsn (get dsn t.res.db_registry) env t)
  found-InputIs dsn t k =
      OnOk-both (StandsUnder out dsn) (λ _ u. InputIs t u.res)
        (found_or_new out dsn (get dsn t.res.db_registry) env t)
        (found-StandsUnder out env dsn (get dsn t.res.db_registry) t k refl)
        (OnOk-Preserves out (InputIs t) (found_or_new out dsn (get dsn t.res.db_registry)) env t
          (refl, refl, refl)
          (found-Preserves (InputIs t) (InputIs-Stable t) out dsn (get dsn t.res.db_registry)))

  -- The connection string is found again, and the registry and the database's name are as needed.
  abbrev Ready : Session (Process Version) → String → Session (Process Version) → Type 0
  Ready s dsn t =
      GivesAgain s.res.database_name dsn t
      × RegistryKeyed t.res
      × (t.res.database_name ≡ s.res.database_name)

  conn_str-Ready :
      RangesShort out
      → (s : Session (Process Version)) → RegistryKeyed s.res
      → IsBare s.res.config
      → OnOk (Ready s) (conn_str out s.res.database_name env s)
  conn_str-Ready ranges s k bare =
      let m = conn_str out s.res.database_name in
      let I : Process Version → Type 0 = λ p. p.database_name ≡ s.res.database_name in
      let same_name : Stable I = record {
        deeds_ok = λ p ds i. i;
        tunnels_ok = λ p ports i. i;
        remove_ok = λ p dsn i. i;
        put_ok = λ p conn i. i;
      } in
      OnOk-weaken (Ready s)
        (λ dsn t. GivesAgain s.res.database_name dsn t × (RegistryKeyed t.res × I t.res)) (m env s)
        (λ dsn t (a, (b, c)). (a, b, c))
        (OnOk-both (GivesAgain s.res.database_name) (λ _ t. RegistryKeyed t.res × I t.res) (m env s)
          (conn_str-GivesAgain ranges s s.res.database_name bare)
          (OnOk-both (λ _ t. RegistryKeyed t.res) (λ _ t. I t.res) (m env s)
            (OnOk-Preserves out RegistryKeyed m env s k (
              conn_str-Preserves RegistryKeyed RegistryKeyed-Stable (λ p c i. i) out
                s.res.database_name))
            (OnOk-Preserves out I m env s refl
              (conn_str-Preserves I same_name (λ p c i. i) out s.res.database_name))))

  -- For a client of a scheme other than "postgres" without certificates, whose connection string
  -- has one parameter at most: if a range over a map with at most one key visits that key, every
  -- connection of the registry stands under its own string, and the server answers each ping of an
  -- open connection, then connecting again, behind a `connect` that returned a connection, returns
  -- the same one: no pool is opened, no command is run, and the state is as before but for the
  -- range and the ping.
  pub connect-again :
      RangesShort out
      → ((ds : List Deed) (dsn : String) → out.query_error ds dsn ≡ none)
      → (s : Session (Process Version)) → RegistryKeyed s.res
      → IsBare s.res.config
      → OnOk
          (λ conn t. connect out env t ≡ (ok conn, reused_by conn (ranged_by t)))
          (connect out env s)
  unfolding connect ◌>>=◌
  connect-again ranges pings s k bare =
      OnOk-bind (λ conn t. connect out env t ≡ (ok conn, reused_by conn (ranged_by t))) (Ready s)
        (wrap "failed to get connection string" (conn_str out s.res.database_name)) _ env s
        (OnOk-wrap (Ready s) "failed to get connection string" (conn_str out s.res.database_name)
          env s (conn_str-Ready ranges s k bare))
        λ dsn t (r, kt, name).
          OnOk-weaken (λ conn u. connect out env u ≡ (ok conn, reused_by conn (ranged_by u)))
            (λ conn u. StandsUnder out dsn conn u × InputIs t u.res)
            (found_or_new out dsn (get dsn t.res.db_registry) env t)
            (λ conn u ((under, there), same).
              again dsn conn u (ap (λ n. conn_str out n env u) (same.2 ∙ name) ∙ r u same) under
                (ap (λ d. get d u.res.db_registry) (sym under) ∙ there)
                (pings (ranged ∷ u.res.deeds) dsn))
            (found-InputIs dsn t kt)
