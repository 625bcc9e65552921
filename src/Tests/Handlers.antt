-- ===== src/Tests/Handlers.antt =====
-- Witnesses on the parts of the handlers.
use terraform_provider_postg.Tests.Server.{server}
use terraform_provider_postg.Base.{List, String, [], false, none, refl, true, ◌∷◌, ◌≡◌}
use terraform_provider_postg.Effect.{Env, Session, begin, ok}
use terraform_provider_postg.Effect.Emits.{Emits}
use terraform_provider_postg.Grant.{GrantData}
use terraform_provider_postg.Grant.Handlers.{apply_privileges}
use terraform_provider_postg.Grant.Handlers.Ending.{apply_privileges-OnTxn}
use terraform_provider_postg.Grant.Read.{compare_objects}
use terraform_provider_postg.Grant.Read.Compared.{compare_objects_lem, Compares, read_cells}
use terraform_provider_postg.Helpers.Transactions.Statements.{OnTxn}
use terraform_provider_postg.Role.{RoleAttrs, RoleData}
use terraform_provider_postg.Role.Handlers.{drop_role, update_role}
use terraform_provider_postg.Role.Handlers.Ending.{drop_role-OnTxn, update_role-OnTxn}
use terraform_provider_postg.Role.Update.{alter_role}
use terraform_provider_postg.Role.Update.Unchanged.{alter_role_lem}
use terraform_provider_postg.Text.Decimal.{pos}

abbrev app : RoleAttrs
app = record {
  name = "app";
  password = "secret";
  encrypted_password = true;
  roles = "readers" ∷ [];
  search_path = [];
  valid_until = "infinity";
  connection_limit = pos 5;
  superuser = false;
  create_database = false;
  create_role = false;
  idle_in_transaction_session_timeout = pos 0;
  inherit = true;
  login = true;
  replication = false;
  bypass_row_level_security = false;
  skip_drop_role = false;
  skip_reassign_owned = false;
  statement_timeout = pos 0;
  create_if_not_exists = false;
}

abbrev app_session : Session RoleData
app_session = record {
  res = record { id = "app"; attrs = app; old = app };
  log = begin "postgres" none ∷ [];
}

alter_role_lem_example : alter_role 0 server app_session ≡ (ok tt, app_session)
alter_role_lem_example = alter_role_lem 0 server app_session refl

abbrev reports : GrantData
reports = record {
  id = "";
  role = "readers";
  database = "shop";
  schema = "reports";
  object_type = "table";
  objects = "sales" ∷ [];
  privileges = "SELECT" ∷ [];
  with_grant_option = false;
}

abbrev tables : List (String × List String)
tables = ("stock", []) ∷ ("sales", "SELECT" ∷ "INSERT" ∷ []) ∷ []

-- A server on which no two sets are equal.
abbrev strict_server : Env
strict_server = record server { set_equal = λ xs ys. false }

compare_objects_lem_example :
    Compares strict_server reports tables
      (record { res = reports; log = [] })
      (compare_objects reports
        (read_cells tables)
        strict_server
        (record { res = reports; log = [] }))
compare_objects_lem_example =
    compare_objects_lem reports tables strict_server (record { res = reports; log = [] })

apply_privileges-OnTxn_example : Emits (OnTxn 3) (apply_privileges 3)
apply_privileges-OnTxn_example = apply_privileges-OnTxn 3

update_role-OnTxn_example : Emits (OnTxn 3) (update_role 3)
update_role-OnTxn_example = update_role-OnTxn 3

drop_role-OnTxn_example : Emits (OnTxn 3) (drop_role 3)
drop_role-OnTxn_example = drop_role-OnTxn 3
