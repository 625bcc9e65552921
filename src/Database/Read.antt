-- ===== src/Database/Read.antt =====
-- `resourcePostgreSQLDatabaseReadImpl` of postgresql/resource_postgresql_database.go.
use Prim.Native.String.{◌++◌}
use terraform_provider_postg.Base.{Bool, String, [], if◌then◌else◌, not, ◌∷◌}
use terraform_provider_postg.Database.{DatabaseAttrs, DatabaseData}
use terraform_provider_postg.Effect.{
  DatabaseRow, M, Scan, ask, ask_server, current, fail, failed, feature_db_allow_connections,
  feature_db_is_template, modify, no_rows, pool, pure, query_bool, query_two, row, str, wrapped,
  ◌>>=◌, ◌>>◌,
}
use terraform_provider_postg.Effect.Reading.{row_or}
use terraform_provider_postg.Helpers.Catalog.{err_no_rows}
use terraform_provider_postg.Text.{nonempty}

unfoldable pub set_id : String → M DatabaseData (Unit {0})
set_id id = modify (λ d. record d { id = id })

unfoldable pub modify_attrs : (DatabaseAttrs → DatabaseAttrs) → M DatabaseData (Unit {0})
modify_attrs f = modify (λ d. record d { attrs = f d.attrs })

abbrev pub database_query : String → String
database_query columns =
    "SELECT "
    ++ (columns
        ++ " FROM pg_catalog.pg_database AS d, pg_catalog.pg_tablespace AS ts WHERE d.datname = $1 AND d.dattablespace = ts.oid")

abbrev database_columns : String
database_columns =
    "pg_catalog.pg_encoding_to_char(d.encoding), d.datcollate, d.datctype, ts.spcname, d.datconnlimit"

unfoldable pub with_row : (name owner : String) → DatabaseRow → DatabaseAttrs → DatabaseAttrs
with_row name owner r a = record a {
  name = name;
  owner = owner;
  encoding = r.encoding;
  lc_collate = r.collation;
  lc_ctype = r.ctype;
  tablespace_name = r.tablespace_name;
  connection_limit = r.conn_limit;
  template = if nonempty a.template then a.template else "template0";
}

-- A column that later servers have. Here ErrNoRows is an error like any other.
read_flag : String → String → M DatabaseData Bool
read_flag msg column = do
  d ← current
  r ← query_bool pool (database_query column) (str d.id ∷ [])
  row_or (wrapped msg err_no_rows) msg r

read_allow_connections : M DatabaseData (Unit {0})
read_allow_connections = do
  env ← ask
  if not (env.supported feature_db_allow_connections) then pure tt else (do
    allowed ← read_flag "Error reading ALLOW_CONNECTIONS property for DATABASE" "d.datallowconn"
    modify_attrs (λ a. record a { allow_connections = allowed }))

read_is_template : M DatabaseData (Unit {0})
read_is_template = do
  env ← ask
  if not (env.supported feature_db_is_template) then pure tt else (do
    template ← read_flag "Error reading IS_TEMPLATE property for DATABASE" "d.datistemplate"
    modify_attrs (λ a. record a { is_template = template }))

store_row : (name owner : String) → Scan DatabaseRow → M DatabaseData (Unit {0})
store_row name owner no_rows = set_id ""
store_row name owner (failed e) = fail (wrapped "Error reading database" e)
store_row name owner (row r) = do
  modify_attrs (with_row name owner r)
  read_allow_connections
  read_is_template

store_database : Scan (String × String) → M DatabaseData (Unit {0})
store_database no_rows = set_id ""
store_database (failed e) = fail (wrapped "Error reading database" e)
store_database (row (name, owner)) = do
  d ← current
  r ← ask_server (λ env. env.scan_database) pool (database_query database_columns) (str d.id ∷ [])
  store_row name owner r

unfoldable pub resource_database_read_impl : M DatabaseData (Unit {0})
unfolding store_database store_row read_allow_connections read_is_template read_flag set_id
    modify_attrs with_row
resource_database_read_impl = do
  d ← current
  r ←
      query_two pool
        "SELECT d.datname, pg_catalog.pg_get_userbyid(d.datdba) from pg_database d WHERE datname=$1"
        (str d.id ∷ [])
  store_database r
