-- ===== src/Database/Handlers/Unchanged.antt =====
-- What an update in postgresql/resource_postgresql_database.go does if nothing changed.
use terraform_provider_postg.Base.{Bool, bool_changed, eq_refl, refl, true, false, ◌≡◌, arith}
use terraform_provider_postg.Database.{DatabaseData}
use terraform_provider_postg.Database.Changes.{
  set_db_name, set_db_owner, set_db_tablespace, set_db_conn_limit, set_db_allow_conns,
  set_db_is_template,
}
use terraform_provider_postg.Database.Handlers.{resource_database_update}
use terraform_provider_postg.Database.Read.{resource_database_read_impl}
use terraform_provider_postg.Effect.{Env, Session, ◌>>=◌}
use terraform_provider_postg.Text.Decimal.{ℤ, int_eq, pos, negsuc}

same_bool : (b : Bool) → bool_changed b b ≡ false
same_bool true = refl
same_bool false = refl

same_int : (n : ℤ) → int_eq n n ≡ true
unfolding int_eq
same_int (pos n) = ground arith
same_int (negsuc n) = ground arith

-- If no attribute of a database changed, then updating it is reading it, on every server.
pub resource_database_update-unchanged :
    (env : Env) (s : Session DatabaseData)
    → s.res.old ≡ s.res.attrs
    → resource_database_update env s ≡ resource_database_read_impl env s
unfolding resource_database_update set_db_name set_db_owner set_db_tablespace set_db_conn_limit
    set_db_allow_conns set_db_is_template ◌>>=◌
resource_database_update-unchanged env s h =
    rw
      (
        h,
        eq_refl s.res.attrs.name,
        eq_refl s.res.attrs.owner,
        eq_refl s.res.attrs.tablespace_name,
        same_int s.res.attrs.connection_limit,
        same_bool s.res.attrs.allow_connections,
        same_bool s.res.attrs.is_template,
      )
      refl
