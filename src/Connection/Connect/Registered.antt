-- ===== src/Connection/Connect/Registered.antt =====
-- The registry of connections in postgresql/config.go.
use terraform_provider_postg.Base.{
  Bool, Bool-cases, Option, String, [], ◌∷◌, ap, none, some, true, false, inl, inr, refl, sym,
  eq_refl, eq_of_beq, ◌≡◌, ◌∙◌, if◌then◌else◌, ◌==◌,
}
use mathlib.Core.Option.{some-injective}
use terraform_provider_postg.Connection.{DbConnection, Process, Outside, record_deed}
use terraform_provider_postg.Connection.Stable.{Stable}
use terraform_provider_postg.Connection.Connect.{
  connect, connect_client, retry_static, found_or_new, new_connection, reuse, set_fallback,
}
use terraform_provider_postg.Connection.Connect.Preserved.{
  connect-Preserves, connect_client-Preserves,
}
use terraform_provider_postg.Effect.OnOk.{OnOk-weaken, OnOk, OnOk-bind, Gives, Gives-after}
use terraform_provider_postg.Connection.Params.{conn_str}
use terraform_provider_postg.Connection.Params.Preserved.{conn_str-Preserves}
use terraform_provider_postg.Effect.{
  Error, crash, pure, wrap, Env, M, Result, Session, ok, err, panic, modify, defer, or_crash, ◌>>=◌,
}
use terraform_provider_postg.Effect.Preserves.{Preserves-wrap, Preserves}
use terraform_provider_postg.Map.{Map, get, put, remove}
use terraform_provider_postg.Map.Laws.{get-put}

module _ {Version : Type 0} where
  -- Every connection stands under its own string.
  abbrev pub Keyed : Map (DbConnection Version) → Type 0
  Keyed [] = Unit
  Keyed ((key, conn) ∷ rest) = (conn.dsn ≡ key) × Keyed rest

  remove-Keyed : (key : String) (m : Map (DbConnection Version)) → Keyed m → Keyed (remove key m)
  unfolding remove
  remove-Keyed key [] h = h
  remove-Keyed key ((k, conn) ∷ rest) (h, hs) = elim (Bool-cases (k == key)) [
    | inl e ↦ rw e (remove-Keyed key rest hs)
    | inr e ↦ rw e (h, remove-Keyed key rest hs)
  ]

  put-Keyed :
      (conn : DbConnection Version) (m : Map (DbConnection Version))
      → Keyed m
      → Keyed (put conn.dsn conn m)
  unfolding put
  put-Keyed conn m h = (refl, remove-Keyed conn.dsn m h)

  abbrev pub RegistryKeyed : Process Version → Type 0
  RegistryKeyed p = Keyed p.db_registry

  pub RegistryKeyed-Stable : Stable RegistryKeyed
  RegistryKeyed-Stable = record {
    deeds_ok = λ p ds i. i;
    tunnels_ok = λ p ports i. i;
    remove_ok = λ p dsn i. remove-Keyed dsn p.db_registry i;
    put_ok = λ p conn i. put-Keyed conn p.db_registry i;
  }

  module _ (out : Outside Version) where
    retry-RegistryKeyed : Preserves RegistryKeyed (retry_static out)
    unfolding retry_static defer or_crash modify ◌>>=◌
    retry-RegistryKeyed = record {
      at = λ env s i.
          (connect-Preserves RegistryKeyed RegistryKeyed-Stable out (λ p m i. i)).at env
            (record s { res = set_fallback true s.res }) i;
    }

    -- If every connection of the registry stands under its own connection string, then it does so
    -- behind every attempt to connect, however it ends.
    pub connect_client-RegistryKeyed :
        (env : Env) (s : Session (Process Version))
        → RegistryKeyed s.res
        → RegistryKeyed (connect_client out env s).1.res
    connect_client-RegistryKeyed env s i =
        (connect_client-Preserves RegistryKeyed RegistryKeyed-Stable out (λ p m i. i)
            retry-RegistryKeyed).at
          env s i

    -- The connection stands in the registry.
    abbrev pub IsRegistered : DbConnection Version → Session (Process Version) → Type 0
    IsRegistered conn s = get conn.dsn s.res.db_registry ≡ some conn

    -- It stands there under this string.
    abbrev pub StandsUnder : String → DbConnection Version → Session (Process Version) → Type 0
    StandsUnder dsn conn s = (conn.dsn ≡ dsn) × IsRegistered conn s

    stored-StandsUnder :
        (conn : DbConnection Version)
        → Gives (StandsUnder conn.dsn) (
            modify (λ p. record p { db_registry = put conn.dsn conn p.db_registry }) >>= λ _.
            pure conn)
    unfolding modify pure ◌>>=◌
    stored-StandsUnder conn = record {
      at = λ env s.
          (refl, get-put conn.dsn conn.dsn conn s.res.db_registry ∙ rw (eq_refl conn.dsn) refl);
    }

    new-StandsUnder : (dsn : String) → Gives (StandsUnder dsn) (new_connection out dsn)
    unfolding new_connection
    new-StandsUnder dsn = Gives-after _ _ _ λ p. Gives-after _ _ _ λ e. Gives-after _ _ _ λ _.
        Gives-after _ _ _ λ _.
          Gives-after _ _ _
            λ version. stored-StandsUnder (record { dsn = dsn; conn_version = version })

    if_Keyed :
        (b : Bool) (k key : String) (c conn : DbConnection Version)
        (o : Option (DbConnection Version))
        → (k == key) ≡ b
        → (o ≡ some conn → conn.dsn ≡ key)
        → (if b then some c else o) ≡ some conn
        → c.dsn ≡ k
        → conn.dsn ≡ key
    if_Keyed true k key c conn o b h e d =
        ap (λ x. x.dsn) (sym (some-injective c conn e)) ∙ d ∙ eq_of_beq k key b
    if_Keyed false k key c conn o b h e d = h e

    reuse-StandsUnder :
        (env : Env) (dsn : String) (conn : DbConnection Version) (o : Option Error)
        (s : Session (Process Version))
        → StandsUnder dsn conn s
        → OnOk (StandsUnder dsn) (reuse dsn conn o env s)
    unfolding reuse modify crash pure ◌>>=◌
    reuse-StandsUnder env dsn conn none s h = h
    reuse-StandsUnder env dsn conn (some e) s h = tt

    kept_OnOk :
        {A : Type 0}
        → (I : Process Version → Type 0) (o : Result A × Session (Process Version)) → I o.1.res
        → OnOk (λ _ t. I t.res) o
    kept_OnOk I (ok a, s) i = i
    kept_OnOk I (err e, s) i = tt
    kept_OnOk I (panic, s) i = tt

    pub OnOk-Preserves :
        {A : Type 0}
        → (I : Process Version → Type 0) (m : M (Process Version) A) (env : Env)
          (s : Session (Process Version))
        → I s.res
        → Preserves I m
        → OnOk (λ _ t. I t.res) (m env s)
    OnOk-Preserves I m env s i h = kept_OnOk I (m env s) (h.at env s i)

    get-Keyed :
        (key : String) (m : Map (DbConnection Version)) (conn : DbConnection Version)
        → Keyed m
        → get key m ≡ some conn
        → conn.dsn ≡ key
    unfolding get
    get-Keyed key [] conn h e = cc
    get-Keyed key ((k, c) ∷ rest) conn (h, hs) e =
        if_Keyed (k == key) k key c conn (get key rest) refl (get-Keyed key rest conn hs) e h

    pub found-StandsUnder :
        (env : Env) (dsn : String) (o : Option (DbConnection Version))
        (s : Session (Process Version))
        → RegistryKeyed s.res
        → get dsn s.res.db_registry ≡ o
        → OnOk (StandsUnder dsn) (found_or_new out dsn o env s)
    unfolding found_or_new record_deed ◌>>=◌
    found-StandsUnder env dsn (some conn) s k e =
        let under = get-Keyed dsn s.res.db_registry conn k e in
        reuse-StandsUnder env dsn conn (out.query_error s.res.deeds dsn) _
          (under, ap (λ d. get d s.res.db_registry) under ∙ e)
    found-StandsUnder env dsn none s k e = (new-StandsUnder dsn).at env s

    -- If every connection of the registry stands under its own string, then a connection that
    -- `connect` returns, new or reused, stands in the registry.
    pub connect-IsRegistered :
        (env : Env) (s : Session (Process Version))
        → RegistryKeyed s.res
        → OnOk IsRegistered (connect out env s)
    unfolding connect ◌>>=◌
    connect-IsRegistered env s k =
        OnOk-bind IsRegistered (λ _ t. RegistryKeyed t.res)
          (wrap "failed to get connection string" (conn_str out s.res.database_name)) _ env s
          (OnOk-Preserves _ _ env s k (
            Preserves-wrap _ _ _ (
              conn_str-Preserves RegistryKeyed RegistryKeyed-Stable (λ p m i. i) out
                s.res.database_name)))
          λ dsn t kt.
            OnOk-weaken IsRegistered (StandsUnder dsn)
              (found_or_new out dsn (get dsn t.res.db_registry) env t) (λ conn u h. h.1)
              (found-StandsUnder env dsn (get dsn t.res.db_registry) t kt refl)
