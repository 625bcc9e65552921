-- ===== src/Database/Create.antt =====
-- The `CREATE DATABASE` of postgresql/resource_postgresql_database.go.
use Prim.Native.String.{◌++◌}
use terraform_provider_postg.Base.{Bool, String, if◌then◌else◌, not, ◌==◌}
use terraform_provider_postg.Database.{DatabaseAttrs}
use terraform_provider_postg.Effect.{Env, feature_db_allow_connections, feature_db_is_template}
use terraform_provider_postg.Helpers.Quote.{pq_quote_literal}
use terraform_provider_postg.Text.{format_bool, nonempty, to_upper}
use terraform_provider_postg.Text.Decimal.{format_int}

abbrev pub is_default : String → Bool
is_default v = to_upper v == "DEFAULT"

-- " KEY DEFAULT", " KEY identifier", or nothing for an attribute that is not set
ident_option : Env → String → String → String
ident_option env key v =
    if not (nonempty v)
    then ""
    else if is_default v
    then " " ++ (key ++ " DEFAULT")
    else " " ++ (key ++ (" " ++ env.quote_identifier v))

-- " KEY DEFAULT", " KEY 'literal' ", or nothing for an attribute that is not set
literal_option : String → String → String
literal_option key v =
    if not (nonempty v)
    then ""
    else if is_default v
    then " " ++ (key ++ " DEFAULT")
    else " " ++ (key ++ (" '" ++ (pq_quote_literal v ++ "' ")))

unfoldable pub create_database_query : Env → DatabaseAttrs → String
unfolding ident_option literal_option
create_database_query env a =
    "CREATE DATABASE "
    ++ (env.quote_identifier a.name
        ++ ((" OWNER "
              ++ env.quote_identifier (if nonempty a.owner then a.owner else env.database_username))
            ++ ((if nonempty a.template
                  then ident_option env "TEMPLATE" a.template
                  else " TEMPLATE template0")
                ++ ((if nonempty a.encoding
                      then literal_option "ENCODING" a.encoding
                      else " ENCODING 'UTF8'")
                    ++ (literal_option "LC_COLLATE" a.lc_collate
                        ++ (literal_option "LC_CTYPE" a.lc_ctype
                            ++ (ident_option env "TABLESPACE" a.tablespace_name
                                ++ ((if env.supported feature_db_allow_connections
                                      then " ALLOW_CONNECTIONS " ++ format_bool a.allow_connections
                                      else "")
                                    ++ ((" CONNECTION LIMIT " ++ format_int a.connection_limit)
                                        ++ (if env.supported feature_db_is_template
                                            then " IS_TEMPLATE " ++ format_bool a.is_template
                                            else ""))))))))))
