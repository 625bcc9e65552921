-- ===== src/Database/Handlers/Dropping.antt =====
-- What has been sent when a drop in postgresql/resource_postgresql_database.go succeeds.
use Prim.Native.String.{◌++◌}
use terraform_provider_postg.Base.{
  ap, some, Option, ◌∙◌, String, [], ◌∷◌, ◌≡◌, if◌then◌else◌, none, refl,
}
use terraform_provider_postg.Database.{DatabaseData}
use terraform_provider_postg.Database.Handlers.{drop_body}
use terraform_provider_postg.Database.Changes.{terminate_b_connections, set_db_is_template}
use terraform_provider_postg.Database.Read.{set_id}
use terraform_provider_postg.Effect.{
  continue, modify, pure, fail, Env, Log, M, Session, ◌>>=◌, exec, Result, Error, ok, err, panic,
  exec_sql, exec_args, pool, wrap, or_fail, feature_pid, feature_force_drop_database,
}
use terraform_provider_postg.Effect.OnOk.{OnOk, OnOk-weaken, OnOk-bind, OnOk-wrap}

-- The statement that ends every connection to a database but the own one.
abbrev pub terminate_text : Env → String → String
terminate_text env name =
    let pid = if env.supported feature_pid then "pid" else "procpid" in
    "SELECT pg_terminate_backend("
    ++ (pid
        ++ (") FROM pg_stat_activity WHERE datname = '"
            ++ (name ++ ("' AND " ++ (pid ++ " <> pg_backend_pid()")))))

abbrev pub drop_text : Env → String → String
drop_text env name =
    "DROP DATABASE "
    ++ (env.quote_identifier name
        ++ (" " ++ (if env.supported feature_force_drop_database then "WITH ( FORCE )" else "")))

-- The log's newest event is this statement, sent on the pool, and it succeeded.
abbrev pub Sent : String → Log → Log → Type 0
Sent sql before log = log ≡ exec pool sql [] none ∷ before

module _ {D A B : Type 0} where
  -- The first part may do anything.
  OnOk-after :
      (Q : B → Session D → Type 0) (f : A → M D B) (env : Env) (o : Result A × Session D)
      → ((a : A) (s : Session D) → OnOk Q (f a env s))
      → OnOk Q (continue o.0 f env o.1)
  OnOk-after Q f env (ok a, s) h = h a s
  OnOk-after Q f env (err e, s) h = tt
  OnOk-after Q f env (panic, s) h = tt

module _ (env : Env) where
  or_fail-Sent :
      (sql : String) (s : Session DatabaseData) (e : Option Error)
      → OnOk
          (λ _ s'. Sent sql s.log s'.log)
          (or_fail e env (record s { log = exec pool sql [] e ∷ s.log }))
  unfolding or_fail pure fail
  or_fail-Sent sql s none = refl
  or_fail-Sent sql s (some e) = tt

  exec_sql-Sent :
      (sql : String) (s : Session DatabaseData)
      → OnOk (λ _ s'. Sent sql s.log s'.log) (exec_sql pool sql env s)
  unfolding exec_args ◌>>=◌
  exec_sql-Sent sql s = or_fail-Sent sql s (env.exec_error s.log pool sql [])

  -- The newest event is the successful end of the connections.
  abbrev Terminated : String → Unit {0} → Session DatabaseData → Type 0
  Terminated name u s = (log : Log) × Sent (terminate_text env name) log s.log

  abbrev pub Dropped : String → Unit {0} → Session DatabaseData → Type 0
  Dropped name u s =
      (log : Log) × Sent (drop_text env name) (exec pool (terminate_text env name) [] none ∷ log)
        s.log

  wrapped-Sent :
      (msg sql : String) (s : Session DatabaseData)
      → OnOk (λ _ s'. Sent sql s.log s'.log) (wrap msg (exec_sql pool sql) env s)
  wrapped-Sent msg sql s = OnOk-wrap _ msg (exec_sql pool sql) env s (exec_sql-Sent sql s)

  terminate-Terminated :
      (name : String) (s : Session DatabaseData)
      → OnOk (Terminated name) (terminate_b_connections name env s)
  unfolding terminate_b_connections ◌>>=◌
  terminate-Terminated name s =
      OnOk-after (Terminated name)
        (λ _.
          wrap "Error terminating database connections" (exec_sql pool (terminate_text env name)))
        env _
        λ u s'.
          OnOk-weaken (Terminated name) (λ _ t. Sent (terminate_text env name) s'.log t.log)
            (wrap "Error terminating database connections" (exec_sql pool (terminate_text env name))
              env s')
            (λ a t h. (s'.log, h))
            (wrapped-Sent "Error terminating database connections" (terminate_text env name) s')

  terminate_drop-Dropped :
      (name : String) (s : Session DatabaseData)
      → OnOk (Dropped name) (
          (terminate_b_connections name >>= λ _.
          wrap "Error dropping database" (exec_sql pool (drop_text env name)) >>= λ _. set_id "")
            env s)
  unfolding set_id modify
  terminate_drop-Dropped name s =
      OnOk-bind (Dropped name) (Terminated name) (terminate_b_connections name) _ env s
        (terminate-Terminated name s)
        λ u s' (log, h).
          OnOk-bind (Dropped name) (λ _ t. Sent (drop_text env name) s'.log t.log)
            (wrap "Error dropping database" (exec_sql pool (drop_text env name))) _ env s'
            (wrapped-Sent "Error dropping database" (drop_text env name) s')
            λ v t k. (log, k ∙ ap (λ l. exec pool (drop_text env name) [] none ∷ l) h)

  -- When the body of a delete of a database succeeds, the last two statements that it sent are the
  -- one that ends the connections to the database, which succeeded, and then its DROP.
  pub drop_body-Dropped :
      (s : Session DatabaseData) → OnOk (Dropped s.res.attrs.name) (drop_body env s)
  unfolding drop_body ◌>>=◌
  drop_body-Dropped s =
      let name = s.res.attrs.name in
      let rest = terminate_b_connections name >>= λ _.
      wrap "Error dropping database" (exec_sql pool (drop_text env name)) >>= λ _. set_id "" in
      OnOk-after (Dropped name) (λ _. set_db_is_template >>= λ _. rest) env _
        λ u s1. OnOk-after (Dropped name) (λ _. rest) env _ λ v s2. terminate_drop-Dropped name s2
