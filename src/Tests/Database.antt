-- ===== src/Tests/Database.antt =====
-- Runs of the handlers of the database resource on the server of the tests.
use terraform_provider_postg.Base.{[], some, true, false, refl, ◌≡◌}
use terraform_provider_postg.Database.{DatabaseAttrs, DatabaseData}
use terraform_provider_postg.Database.Handlers.Unchanged.{resource_database_update-unchanged}
use terraform_provider_postg.Database.Read.{resource_database_read_impl}
use terraform_provider_postg.Database.Handlers.{
  resource_database_update, create_database, drop_body,
}
use terraform_provider_postg.Database.Handlers.Ending.{create_database-closes}
use terraform_provider_postg.Database.Handlers.Dropping.{Dropped, drop_body-Dropped}
use terraform_provider_postg.Database.Owner.{with_role_locked}
use terraform_provider_postg.Database.Owner.Locking.{Locks, with_role_locked-leaks}
use terraform_provider_postg.Effect.{Env, Session, err, wrapped, text, pure}
use terraform_provider_postg.Effect.OnOk.{OnOk}
use terraform_provider_postg.Helpers.Transactions.Closing.{is_open}
use terraform_provider_postg.Tests.Server.{server}
use terraform_provider_postg.Text.Decimal.{pos}

abbrev app : DatabaseAttrs
app = record {
  name = "app";
  owner = "app_owner";
  template = "";
  encoding = "";
  lc_collate = "";
  lc_ctype = "";
  tablespace_name = "";
  connection_limit = pos 10;
  allow_connections = true;
  is_template = false;
  create_if_not_exists = true;
}

abbrev session : Session DatabaseData
session = record { res = record { id = ""; attrs = app; old = app }; log = [] }

locks : Locks server "admin"
locks = record { own = λ log t. refl; members = λ log t. refl }

create_database-closes_example : is_open 0 (create_database server session).1.log ≡ is_open 0 []
create_database-closes_example = create_database-closes server session 0 locks

drop_body-Dropped_example : OnOk (Dropped server "app") (drop_body server session)
drop_body-Dropped_example = drop_body-Dropped server session

-- A server that refuses every statement.
abbrev refusing : Env
refusing = record server { exec_error = λ log h sql args. some (text "refused") }

with_role_locked-leaks_example :
    ((with_role_locked "admin" (pure tt) refusing session).0
      ≡ err (wrapped "could not get advisory lock for role admin" (text "refused")))
    × (is_open 0 (with_role_locked "admin" (pure tt) refusing session).1.log ≡ true)
with_role_locked-leaks_example =
    with_role_locked-leaks "admin" (pure tt) refusing session (text "refused") refl refl refl

resource_database_update-unchanged_example :
    resource_database_update server session ≡ resource_database_read_impl server session
resource_database_update-unchanged_example = resource_database_update-unchanged server session refl
