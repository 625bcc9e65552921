-- ===== src/Helpers/Catalog.antt =====
-- The queries of postgresql/helpers.go on the system catalogs, and the advisory locks.
use Prim.Native.String.{◌++◌}
use terraform_provider_postg.Base.{ℕ, String, Bool, List, [], ◌∷◌, ◌==◌, if◌then◌else◌}
use terraform_provider_postg.Text.{nonempty}
use terraform_provider_postg.Effect.{
  Error, text, wrapped, Rows, refused, rows, Handle, str, M, pure, crash, ◌>>=◌, ◌>>◌, exec_args,
  wrap, query_string, query_bool, query_nat, query_rows,
}
use terraform_provider_postg.Effect.Reading.{found_or, row_or, collect}

-- sql.ErrNoRows
abbrev pub err_no_rows : Error
err_no_rows = text "sql: no rows in result set"

abbrev pub public_role : String
public_role = "public"

-- The attribute `database` of a resource, or else the provider's database.
abbrev pub get_database : String → String → String
get_database attr database_name = if nonempty attr then attr else database_name

module _ {D : Type 0} where
  unfoldable pub db_exists : Handle → String → M D Bool
  db_exists h dbname = do
    r ← query_string h "SELECT datname FROM pg_database WHERE datname=$1" (str dbname ∷ [])
    found_or "could not check if database exists" r

  unfoldable pub role_exists : Handle → String → M D Bool
  role_exists h rolname = do
    r ← query_string h "SELECT 1 FROM pg_roles WHERE rolname=$1" (str rolname ∷ [])
    found_or "could not check if role exists" r

  unfoldable pub schema_exists : Handle → String → M D Bool
  schema_exists h schemaname = do
    r ← query_string h "SELECT 1 FROM pg_namespace WHERE nspname=$1" (str schemaname ∷ [])
    found_or "could not check if schema exists" r

  unfoldable pub get_current_user : Handle → M D String
  get_current_user h = do
    r ← query_string h "SELECT CURRENT_USER" []
    row_or (text "SELECT CURRENT_USER returns now row, this is quite disturbing")
        "error while looking for the current user" r

  unfoldable pub get_database_owner : Handle → String → M D String
  get_database_owner h database = do
    r ←
        query_string h
          "\nSELECT rolname\n  FROM pg_database\n  JOIN pg_roles ON datdba = pg_roles.oid\n  WHERE datname = $1\n"
          (str database ∷ [])
    row_or (text ("could not find database '" ++ (database ++ "' while looking for owner")))
        ("error while looking for the owner of database '" ++ (database ++ "'")) r

  unfoldable pub get_schema_owner : Handle → String → M D String
  get_schema_owner h schema_name = do
    r ←
        query_string h
          "\nSELECT rolname\n  FROM pg_namespace\n  JOIN pg_roles ON nspowner = pg_roles.oid\n  WHERE nspname = $1\n"
          (str schema_name ∷ [])
    row_or (text ("could not find schema '" ++ (schema_name ++ "' while looking for owner")))
        ("error while looking for the owner of schema '" ++ (schema_name ++ "'")) r

  -- `rows.Close()` is deferred above the test of `err`: the rows of a query that failed are nil,
  -- and closing them panics.
  unfoldable pub owners_of : Rows String → M D (List String)
  owners_of (refused e) = crash
  owners_of (rows cells) = collect "could not scan tables owner" cells

  unfoldable pub get_tables_owner : Handle → String → M D (List String)
  unfolding owners_of
  get_tables_owner h schema_name = do
    r ←
        query_rows h "SELECT DISTINCT tableowner FROM pg_tables WHERE schemaname = $1"
          (str schema_name ∷ [])
    owners_of r

  -- A role that does not exist is an error here.
  unfoldable pub is_superuser : Handle → String → M D Bool
  is_superuser h role = do
    r ← query_bool h "SELECT rolsuper FROM pg_roles WHERE rolname = $1" (str role ∷ [])
    let msg = "could not check if role " ++ (role ++ " is superuser")
    row_or (wrapped msg err_no_rows) msg r

  unfoldable pub get_role_oid : Handle → String → M D ℕ
  get_role_oid h role = if role == public_role then pure 0 else do
    r ← query_nat h "SELECT oid FROM pg_roles WHERE rolname = $1" (str role ∷ [])
    let msg = "could not find oid for role " ++ role
    row_or (wrapped msg err_no_rows) msg r

  -- Locks a role and all its members.
  unfoldable pub pg_lock_role : Handle → String → M D (Unit {0})
  pg_lock_role h role = do
    wrap ("could not get advisory lock for role " ++ role) (
        exec_args h "SELECT pg_advisory_xact_lock(oid::bigint) FROM pg_roles WHERE rolname = $1"
          (str role ∷ []))
    wrap ("could not get advisory lock for members of role " ++ role) (
        exec_args h
          "SELECT pg_advisory_xact_lock(member::bigint) FROM pg_auth_members JOIN pg_roles ON roleid = pg_roles.oid WHERE rolname = $1"
          (str role ∷ []))
