-- ===== src/Effect.antt =====
-- Sessions of the provider with a PostgreSQL server (database/sql as postgresql/*.go uses it).
-- A program reads an environment (the server's answers and the vendored libraries), and changes
-- the resource data and the log of what was sent. The log has its newest event first. What was
-- written to the resource data before an error stays written, so the session comes back beside
-- every result.
pub mod Emits
pub mod OnOk
pub mod Preserves
pub mod Reading
use terraform_provider_postg.Text.Decimal.{ℤ}
use terraform_provider_postg.Base.{ℕ, String, Bool, Option, none, some, List, [], ◌∷◌}

-- `text` is an error with no cause; `wrapped` is `fmt.Errorf("…: %w", err)`, and `wrapped_between`
-- is `fmt.Errorf("…: %w …", err, …)`.
pub data Error : Type 0 where
  text : String → Error
  wrapped : String → Error → Error
  wrapped_between : String → Error → String → Error
  driver : (class message : String) → Error

pub data Result {ℓ} (A : Type ℓ) : Type ℓ where
  ok : A → Result A
  err : Error → Result A
  panic : Result A

-- The outcome of `QueryRow(…).Scan(…)`.
pub data Scan {ℓ} (A : Type ℓ) : Type ℓ where
  no_rows : Scan A
  failed : Error → Scan A
  row : A → Scan A

-- One round of `rows.Scan`, and the outcome of `Query(…)` with the rows that `rows.Next` gives.
pub data Cell {ℓ} (A : Type ℓ) : Type ℓ where
  unread : Error → Cell A
  value : A → Cell A

pub data Rows {ℓ} (A : Type ℓ) : Type ℓ where
  refused : Error → Rows A
  rows : List (Cell A) → Rows A

-- The connection pool (`*DBConnection`), or the n-th transaction of the log.
pub data Handle : Type 0 where
  pool : Handle
  txn : ℕ → Handle

pub data Arg : Type 0 where
  str : String → Arg
  num : ℕ → Arg

pub data Event : Type 0 where
  begin : (database : String) → Option Error → Event
  exec : Handle → (sql : String) → List Arg → Option Error → Event
  query : Handle → (sql : String) → List Arg → Event
  commit : ℕ → Option Error → Event
  rollback : ℕ → Event

abbrev pub Log : Type 0
Log = List Event

pub data Feature : Type 0 where
  feature_create_role_with feature_db_allow_connections feature_db_is_template : Feature
  feature_fallback_application_name feature_rls feature_schema_create_if_not_exist : Feature
  feature_replication feature_extension feature_privileges feature_force_drop_database : Feature
  feature_pid : Feature

-- One row of `pg_roles` as `resourcePostgreSQLRoleReadImpl` selects it. The last two columns are
-- `none` where the query does not select them.
pub record RoleRow : Type 0 where
  pub roles : List String
  pub name : String
  pub superuser : Bool
  pub inherit : Bool
  pub create_role : Bool
  pub create_db : Bool
  pub can_login : Bool
  pub conn_limit : ℤ
  pub valid_until : String
  pub config : List String
  pub replication : Option Bool
  pub bypass_rls : Option Bool

-- One row of `pg_database` with its tablespace, as `resourcePostgreSQLDatabaseReadImpl` selects it.
pub record DatabaseRow : Type 0 where
  pub encoding : String
  pub collation : String
  pub ctype : String
  pub tablespace_name : String
  pub conn_limit : ℤ

-- `acl.Schema` of github.com/sean-/postgresql-acl.
pub record AclSchema : Type 0 where
  pub role : String
  pub granted_by : String
  pub privileges : ℕ
  pub grant_options : ℕ

-- What is not under postgresql/: the server's answers, which may depend on all that was sent
-- before, the vendored libraries, and the provider's configuration.
pub record Env : Type 0 where
  -- `strconv.IsPrint`
  pub is_print : ℕ → Bool
  -- `pq.QuoteIdentifier`
  pub quote_identifier : String → String
  -- the strings of a `schema.NewSet` in the order of its `List()`, and `Set.Equal`
  pub new_set : List String → List String
  pub set_equal : List String → List String → Bool
  -- `acl.Create`, `acl.Usage`, and the methods of `acl.Schema`
  pub acl_create : ℕ
  pub acl_usage : ℕ
  pub acl_merge : AclSchema → AclSchema → AclSchema
  pub acl_grants : AclSchema → String → List String
  pub acl_revokes : AclSchema → String → List String
  -- `acl.Parse`, whose items have the same fields, and `acl.NewSchema`
  pub acl_parse : String → Cell AclSchema
  pub acl_new_schema : AclSchema → Cell AclSchema
  -- the MD5 digest of a text, in hexadecimal
  pub md5_hex : String → String
  -- the order in which a `range` visits the keys of a map, another one each time
  pub map_order : Log → List String → List String
  -- `featureSupported` at the server's version
  pub supported : Feature → Bool
  pub version : String
  -- `client.databaseName`, `config.getDatabaseUsername()`, `config.Superuser`
  pub client_database : String
  pub database_username : String
  pub config_superuser : Bool
  -- `client.Connect` of a client for the database, which can also panic
  pub connect_result : Log → String → Result (Unit {0})
  pub begin_error : Log → String → Option Error
  pub exec_error : Log → Handle → String → List Arg → Option Error
  pub commit_error : Log → ℕ → Option Error
  pub scan_string : Log → Handle → String → List Arg → Scan String
  pub scan_two : Log → Handle → String → List Arg → Scan (String × String)
  pub scan_bool : Log → Handle → String → List Arg → Scan Bool
  pub scan_nat : Log → Handle → String → List Arg → Scan ℕ
  pub scan_list : Log → Handle → String → List Arg → Scan (List String)
  pub scan_owner_acl : Log → Handle → String → List Arg → Scan (String × List String)
  pub scan_membership : Log → Handle → String → List Arg → Scan (String × String × Bool)
  pub scan_role : Log → Handle → String → List Arg → Scan RoleRow
  pub scan_database : Log → Handle → String → List Arg → Scan DatabaseRow
  pub rows_string : Log → Handle → String → List Arg → Rows String
  pub rows_acl : Log → Handle → String → List Arg → Rows (String × List String)

pub record Session (D : Type 0) : Type 0 where
  pub res : D
  pub log : Log

abbrev pub M : Type 0 → Type 0 → Type 0
M D A = Env → Session D → Result A × Session D

module _ {D A : Type 0} where
  unfoldable pub pure : A → M D A
  pure a env s = (ok a, s)

  unfoldable pub fail : Error → M D A
  fail e env s = (err e, s)

  -- A run-time panic, such as a method call on a nil pointer.
  unfoldable pub crash : M D A
  crash env s = (panic, s)

module _ {D : Type 0} where
  unfoldable pub ask : M D Env
  ask env s = (ok env, s)

  -- the resource data, `d`
  unfoldable pub current : M D D
  current env s = (ok s.res, s)

  unfoldable pub modify : (D → D) → M D (Unit {0})
  modify f env s = (ok tt, record s { res = f s.res })

  unfoldable pub emit : Event → M D (Unit {0})
  emit e env s = (ok tt, record s { log = e ∷ s.log })

  unfoldable pub history : M D Log
  history env s = (ok s.log, s)

module _ {A B : Type 0} where
  -- What a deferred call's result does to the result of the function: only a panic shows.
  abbrev pub after_defer : Result A → Result B → Result A
  after_defer r panic = panic
  after_defer r _ = r

module _ {A : Type 0} where
  abbrev pub wrap_result : String → Result A → Result A
  wrap_result msg (ok a) = ok a
  wrap_result msg (err e) = err (wrapped msg e)
  wrap_result msg panic = panic

module _ {A : Type 0} where
  abbrev pub panic_on_err : Result A → Result A
  panic_on_err (err e) = panic
  panic_on_err r = r

module _ {A : Type 0} where
  abbrev pub attempted : Result A → Result (Option A)
  attempted (ok a) = ok (some a)
  attempted (err e) = ok none
  attempted panic = panic

module _ {D A : Type 0} where
  unfoldable pub of_result : Result A → M D A
  of_result r env s = (r, s)

  -- The error of `m` is dropped, and the value beside it is nil then.
  unfoldable pub attempt : M D A → M D (Option A)
  attempt m env s = let (r, s') = m env s in (attempted r, s')

module _ {D A : Type 0} where
  -- `if err != nil { panic(err) }`
  unfoldable pub or_crash : M D A → M D A
  or_crash m env s = let (r, s') = m env s in (panic_on_err r, s')

module _ {D A B : Type 0} where
  abbrev pub continue : Result A → (A → M D B) → M D B
  continue (ok a) f env s = f a env s
  continue (err e) f env s = (err e, s)
  continue panic f env s = (panic, s)

  infixl 10 ◌>>=◌ ◌>>◌
  -- opening this opens the primitive actions too
  unfoldable pub ◌>>=◌ : M D A → (A → M D B) → M D B
  unfolding pure fail crash ask current modify emit history
  ◌>>=◌ m f env s = let (r, s') = m env s in continue r f env s'

  abbrev pub ◌>>◌ : M D A → M D B → M D B
  m >> n = m >>= λ _. n

  -- `defer cleanup()` with `m` for the rest of the function: the cleanup runs however `m` ends.
  unfoldable pub defer : M D B → M D A → M D A
  defer cleanup m env s =
      let (r, s') = m env s in let (c, s'') = cleanup env s' in (after_defer r c, s'')

module _ {D : Type 0} where
  unfoldable pub or_fail : Option Error → M D (Unit {0})
  or_fail none = pure tt
  or_fail (some e) = fail e

  unfoldable pub exec_args : Handle → String → List Arg → M D (Unit {0})
  unfolding or_fail ◌>>=◌
  exec_args h sql args = do
    env ← ask
    log ← history
    let e = env.exec_error log h sql args
    emit (exec h sql args e)
    or_fail e

  abbrev pub exec_sql : Handle → String → M D (Unit {0})
  exec_sql h sql = exec_args h sql []

module _ {D A : Type 0} where
  unfoldable pub ask_server :
      (Env → Log → Handle → String → List Arg → A) → Handle → String → List Arg → M D A
  unfolding ◌>>=◌
  ask_server answer h sql args = do
    env ← ask
    log ← history
    emit (query h sql args)
    pure (answer env log h sql args)

  -- `if err := m; err != nil { return fmt.Errorf("msg: %w", err) }`
  unfoldable pub wrap : String → M D A → M D A
  wrap msg m env s = let (r, s') = m env s in (wrap_result msg r, s')

module _ {D : Type 0} (h : Handle) (sql : String) (args : List Arg) where
  abbrev pub query_string : M D (Scan String)
  query_string = ask_server (λ env. env.scan_string) h sql args

  abbrev pub query_two : M D (Scan (String × String))
  query_two = ask_server (λ env. env.scan_two) h sql args

  abbrev pub query_bool : M D (Scan Bool)
  query_bool = ask_server (λ env. env.scan_bool) h sql args

  abbrev pub query_nat : M D (Scan ℕ)
  query_nat = ask_server (λ env. env.scan_nat) h sql args

  abbrev pub query_list : M D (Scan (List String))
  query_list = ask_server (λ env. env.scan_list) h sql args

  abbrev pub query_rows : M D (Rows String)
  query_rows = ask_server (λ env. env.rows_string) h sql args
