-- ===== src/Endings.antt =====
-- How the handlers of postgresql/resource_postgresql_*.go end their transactions, all together.
use terraform_provider_postg.DefaultPrivileges.{
  resource_default_privileges_create, resource_default_privileges_delete,
}
use terraform_provider_postg.DefaultPrivileges.Ending.{
  resource_default_privileges_create-CommitsOnce, resource_default_privileges_create-Closes,
  resource_default_privileges_delete-Decides, resource_default_privileges_delete-Closes,
}
use terraform_provider_postg.Extension.{
  resource_extension_create, resource_extension_update, resource_extension_delete,
}
use terraform_provider_postg.Extension.Ending.{
  resource_extension_create-CommitsOnce, resource_extension_update-CommitsOnce,
  resource_extension_update-Closes, resource_extension_delete-Decides,
  resource_extension_delete-Closes,
}
use terraform_provider_postg.Grant.Handlers.{resource_grant_create, resource_grant_delete}
use terraform_provider_postg.Grant.Handlers.Ending.{
  resource_grant_create-Closes, resource_grant_delete-Closes,
}
use terraform_provider_postg.GrantRole.{resource_grant_role_create, resource_grant_role_delete}
use terraform_provider_postg.GrantRole.Ending.{
  resource_grant_role_create-CommitsOnce, resource_grant_role_create-Closes,
  resource_grant_role_delete-Decides, resource_grant_role_delete-Closes,
}
use terraform_provider_postg.Helpers.Transactions.Closing.{Closes}
use terraform_provider_postg.Helpers.Transactions.Commits.{CommitsOnce, Decides}
use terraform_provider_postg.ReplicationSlot.{
  resource_replication_slot_create, resource_replication_slot_delete,
}
use terraform_provider_postg.ReplicationSlot.Ending.{
  resource_replication_slot_create-CommitsOnce, resource_replication_slot_create-Closes,
  resource_replication_slot_delete-Decides,
}
use terraform_provider_postg.Role.Handlers.{
  resource_role_create, resource_role_update, resource_role_delete,
}
use terraform_provider_postg.Role.Handlers.Ending.{
  resource_role_create-Closes, resource_role_update-Closes, resource_role_delete-Closes,
}
use terraform_provider_postg.Schema.Handlers.{
  resource_schema_create, resource_schema_update, resource_schema_delete,
}
use terraform_provider_postg.Schema.Handlers.Ending.{
  resource_schema_create-CommitsOnce, resource_schema_create-Closes,
  resource_schema_update-CommitsOnce, resource_schema_update-Closes, resource_schema_delete-Closes,
}

-- Deleting a `postgresql_default_privileges`, a `postgresql_grant_role`, a `postgresql_extension`
-- or a `postgresql_replication_slot`, on every server and from every session, commits exactly once
-- if it returns no error, and commits nothing if it fails or panics.
pub deletes-Decides :
    Decides resource_default_privileges_delete
    × Decides resource_grant_role_delete
    × Decides resource_extension_delete
    × Decides resource_replication_slot_delete
deletes-Decides = (
  resource_default_privileges_delete-Decides, resource_grant_role_delete-Decides,
  resource_extension_delete-Decides, resource_replication_slot_delete-Decides,
)

-- Creating or updating a `postgresql_schema`, a `postgresql_default_privileges` or a
-- `postgresql_extension`, and creating a `postgresql_grant_role` or a
-- `postgresql_replication_slot`, on every server and from every session, commits at most once, and
-- exactly once if it returns no error.
pub writes-CommitsOnce :
    CommitsOnce resource_schema_create
    × CommitsOnce resource_schema_update
    × CommitsOnce resource_default_privileges_create
    × CommitsOnce resource_grant_role_create
    × CommitsOnce resource_extension_create
    × CommitsOnce resource_extension_update
    × CommitsOnce resource_replication_slot_create
writes-CommitsOnce = (
  resource_schema_create-CommitsOnce, resource_schema_update-CommitsOnce,
  resource_default_privileges_create-CommitsOnce, resource_grant_role_create-CommitsOnce,
  resource_extension_create-CommitsOnce, resource_extension_update-CommitsOnce,
  resource_replication_slot_create-CommitsOnce,
)

-- Creating, updating or deleting a `postgresql_grant`, a `postgresql_role`, a `postgresql_schema`
-- or a `postgresql_default_privileges`, creating or deleting a `postgresql_grant_role`, updating or
-- deleting a `postgresql_extension`, and creating a `postgresql_replication_slot`, on every server,
-- from every session and however it ends, has ended every transaction that it began, and the
-- transactions of others are open or not as before.
pub handlers-Closes :
    Closes resource_grant_create
    × Closes resource_grant_delete
    × Closes resource_role_create
    × Closes resource_role_update
    × Closes resource_role_delete
    × Closes resource_schema_create
    × Closes resource_schema_update
    × Closes resource_schema_delete
    × Closes resource_default_privileges_create
    × Closes resource_default_privileges_delete
    × Closes resource_grant_role_create
    × Closes resource_grant_role_delete
    × Closes resource_extension_update
    × Closes resource_extension_delete
    × Closes resource_replication_slot_create
handlers-Closes = (
  resource_grant_create-Closes, resource_grant_delete-Closes, resource_role_create-Closes,
  resource_role_update-Closes, resource_role_delete-Closes, resource_schema_create-Closes,
  resource_schema_update-Closes, resource_schema_delete-Closes,
  resource_default_privileges_create-Closes, resource_default_privileges_delete-Closes,
  resource_grant_role_create-Closes, resource_grant_role_delete-Closes,
  resource_extension_update-Closes, resource_extension_delete-Closes,
  resource_replication_slot_create-Closes,
)
