-- ===== src/Grant/Query.antt =====
-- The statements of postgresql/resource_postgresql_grant.go.
use Prim.Native.String.{◌++◌}
use terraform_provider_postg.Base.{
  Bool, List, String, [], false, if◌then◌else◌, true, ◌==◌, ◌||◌, ◌∷◌,
}
use terraform_provider_postg.Effect.{Env}
use terraform_provider_postg.Grant.{GrantData}
use terraform_provider_postg.Helpers.Privileges.{set_to_pg_ident_list}
use terraform_provider_postg.Text.{join, to_upper}

abbrev is_object_kind : String → Bool
is_object_kind kind = kind == "TABLE" || kind == "SEQUENCE" || kind == "FUNCTION"

-- `objects.Len() > 0`
abbrev pub has_objects : List String → Bool
has_objects [] = false
has_objects (x ∷ xs) = true

module _ (env : Env) (d : GrantData) where
  grant_base : List String → String
  grant_base privileges =
      let kind = to_upper d.object_type in
      if kind == "DATABASE"
      then "GRANT "
        ++ (join privileges ","
            ++ (" ON DATABASE "
                ++ (env.quote_identifier d.database ++ (" TO " ++ env.quote_identifier d.role))))
      else if kind == "SCHEMA"
      then "GRANT "
        ++ (join privileges ","
            ++ (" ON SCHEMA "
                ++ (env.quote_identifier d.schema ++ (" TO " ++ env.quote_identifier d.role))))
      else if is_object_kind kind
      then (if has_objects d.objects
          then "GRANT "
            ++ (join privileges ","
                ++ (" ON "
                    ++ (kind
                        ++ (" "
                            ++ (set_to_pg_ident_list env d.schema d.objects
                                ++ (" TO " ++ env.quote_identifier d.role))))))
          else "GRANT "
            ++ (join privileges ","
                ++ (" ON ALL "
                    ++ (kind
                        ++ ("S IN SCHEMA "
                            ++ (env.quote_identifier d.schema
                                ++ (" TO " ++ env.quote_identifier d.role)))))))
      else ""

  unfoldable pub create_grant_query : List String → String
  unfolding grant_base
  create_grant_query privileges =
      if d.with_grant_option
      then grant_base privileges ++ " WITH GRANT OPTION"
      else grant_base privileges

  unfoldable pub create_revoke_query : String
  create_revoke_query =
      let kind = to_upper d.object_type in
      if kind == "DATABASE"
      then "REVOKE ALL PRIVILEGES ON DATABASE "
        ++ (env.quote_identifier d.database ++ (" FROM " ++ env.quote_identifier d.role))
      else if kind == "SCHEMA"
      then "REVOKE ALL PRIVILEGES ON SCHEMA "
        ++ (env.quote_identifier d.schema ++ (" FROM " ++ env.quote_identifier d.role))
      else if is_object_kind kind
      then (if has_objects d.objects
          then "REVOKE ALL PRIVILEGES ON "
            ++ (kind
                ++ (" "
                    ++ (set_to_pg_ident_list env d.schema d.objects
                        ++ (" FROM " ++ env.quote_identifier d.role))))
          else "REVOKE ALL PRIVILEGES ON ALL "
            ++ (kind
                ++ ("S IN SCHEMA "
                    ++ (env.quote_identifier d.schema
                        ++ (" FROM " ++ env.quote_identifier d.role)))))
      else ""
