-- ===== src/Schema/Handlers/Ending.antt =====
-- How the handlers of postgresql/resource_postgresql_schema.go end their transactions.
use terraform_provider_postg.Helpers.Transactions.Commits.{Quiet, CommitsOnce}
use terraform_provider_postg.Helpers.Transactions.Commits.Rules.{once_rules, quiet_rules}
use terraform_provider_postg.Helpers.Transactions.Sending.{
  Sends, Sends-OnTxn, Sends-ask_server, sends_rules, closing_rules, Quiet-Sends, Closes-Sends,
}
use terraform_provider_postg.Schema.Handlers.{
  create_schema, of_result, resource_schema_create, resource_schema_delete, resource_schema_read,
  resource_schema_update, apply_changes, store_schema, check_acl, check_schema_acl, check_acls,
  create_queries, drop_schema,
}
use terraform_provider_postg.Base.{Bool, List, String, [], ℕ, ◌∷◌}
use terraform_provider_postg.Effect.{
  AclSchema, Cell, Env, Result, Scan, err, failed, no_rows, ok, panic, row, txn, unread, value,
}
use terraform_provider_postg.Effect.Emits.{Emits}
use terraform_provider_postg.Schema.Changes.{set_id}
use terraform_provider_postg.Helpers.Catalog.{get_database_owner, schema_exists}
use terraform_provider_postg.Helpers.Membership.{with_roles_granted}
use terraform_provider_postg.Helpers.Transactions.Closing.{Closes}
use terraform_provider_postg.Helpers.Transactions.Statements.{
  helper_rules, txn_rules, OnTxn, get_database_owner-OnTxn, schema_exists-OnTxn,
  with_roles_granted-OnTxn,
}
use terraform_provider_postg.Schema.{SchemaData}
use terraform_provider_postg.Schema.Changes.Statements.{
  exec_all-OnTxn, set_schema_name-OnTxn, set_schema_owner-OnTxn, set_schema_policy-OnTxn,
}

create_queries-OnTxn : (t : ℕ) (r : Scan Bool) → Emits (OnTxn t) (create_queries t r)
unfolding create_queries
create_queries-OnTxn t no_rows = search txn_rules
create_queries-OnTxn t (failed e) = search txn_rules
create_queries-OnTxn t (row found) = search (txn_rules, set_schema_owner-OnTxn)

create_schema-OnTxn : (t : ℕ) → Emits (OnTxn t) (create_schema t)
unfolding create_schema
create_schema-OnTxn t = search (txn_rules, create_queries-OnTxn, exec_all-OnTxn) depth 12

created-Sends :
    (t : ℕ) (roles : List String) → Sends (with_roles_granted (txn t) roles (create_schema t))
created-Sends t roles = Sends-OnTxn t _ (with_roles_granted-OnTxn t roles _ (create_schema-OnTxn t))

drop_schema-OnTxn : (t : ℕ) → Emits (OnTxn t) (drop_schema t)
unfolding drop_schema
drop_schema-OnTxn t = search helper_rules depth 12

apply_changes-OnTxn :
    (t : ℕ) (database_name : String) → Emits (OnTxn t) (apply_changes t database_name)
unfolding apply_changes
apply_changes-OnTxn t database_name =
    search (txn_rules, set_schema_name-OnTxn, set_schema_owner-OnTxn, set_schema_policy-OnTxn)

database_owner-Sends :
    (t : ℕ) (database : String) → Sends (get_database_owner {D = SchemaData} (txn t) database)
database_owner-Sends t database = Sends-OnTxn t _ (get_database_owner-OnTxn t database)

exists-Sends : (t : ℕ) (schema : String) → Sends (schema_exists {D = SchemaData} (txn t) schema)
exists-Sends t schema = Sends-OnTxn t _ (schema_exists-OnTxn t schema)

check_schema_acl-Sends : (r : Cell AclSchema) → Sends (check_schema_acl r)
unfolding check_schema_acl
check_schema_acl-Sends (unread e) = search sends_rules
check_schema_acl-Sends (value schema) = search sends_rules

check_acl-Sends : (env : Env) (r : Cell AclSchema) → Sends (check_acl env r)
unfolding check_acl
check_acl-Sends env (unread e) = search sends_rules
check_acl-Sends env (value item) = check_schema_acl-Sends (env.acl_new_schema item)

check_acls-Sends : (env : Env) (acls : List String) → Sends (check_acls env acls)
unfolding check_acls
check_acls-Sends env [] = search sends_rules
check_acls-Sends env (acl ∷ acls) =
    let rest = check_acls-Sends env acls in search (sends_rules, check_acl-Sends)

store_schema-Sends :
    (database name : String) (r : Scan (String × List String))
    → Sends (store_schema database name r)
unfolding store_schema set_id
store_schema-Sends database name no_rows = search sends_rules
store_schema-Sends database name (failed e) = search sends_rules
store_schema-Sends database name (row cells) = search (sends_rules, check_acls-Sends) depth 12

of_result-Sends : (r : Result (String × String)) → Sends (of_result r)
unfolding of_result
of_result-Sends (ok names) = search sends_rules
of_result-Sends (err e) = search sends_rules
of_result-Sends panic = search sends_rules

apply_changes-Sends : (t : ℕ) (database_name : String) → Sends (apply_changes t database_name)
apply_changes-Sends t database_name = Sends-OnTxn t _ (apply_changes-OnTxn t database_name)

drop_schema-Sends : (t : ℕ) → Sends (drop_schema t)
drop_schema-Sends t = Sends-OnTxn t _ (drop_schema-OnTxn t)

ruleset leaves = (
  created-Sends, drop_schema-Sends, apply_changes-Sends, database_owner-Sends, exists-Sends,
  store_schema-Sends, of_result-Sends, Sends-ask_server,
)

read-Quiet : Quiet resource_schema_read
unfolding resource_schema_read
read-Quiet = search (quiet_rules, Quiet-Sends, leaves) depth 12

read-Closes : Closes resource_schema_read
unfolding resource_schema_read
read-Closes = search (closing_rules, Closes-Sends, leaves) depth 12

-- Creating a `postgresql_schema`, on every server and from every session, commits at most once, and
-- exactly once if it returns no error.
pub resource_schema_create-CommitsOnce : CommitsOnce resource_schema_create
unfolding resource_schema_create set_id
resource_schema_create-CommitsOnce = search (once_rules, Quiet-Sends, leaves, read-Quiet) depth 16

-- Updating a `postgresql_schema`, on every server and from every session, commits at most once, and
-- exactly once if it returns no error.
pub resource_schema_update-CommitsOnce : CommitsOnce resource_schema_update
unfolding resource_schema_update
resource_schema_update-CommitsOnce = search (once_rules, Quiet-Sends, leaves, read-Quiet) depth 16

-- Deleting a `postgresql_schema`, on every server, from every session and however it ends, has
-- ended every transaction that it began, and the transactions of others are open or not as before.
pub resource_schema_delete-Closes : Closes resource_schema_delete
unfolding resource_schema_delete set_id
resource_schema_delete-Closes = search (closing_rules, Closes-Sends, leaves) depth 16

-- Creating a `postgresql_schema`, on every server, from every session and however it ends, has
-- ended every transaction that it began, and the transactions of others are open or not as before.
pub resource_schema_create-Closes : Closes resource_schema_create
unfolding resource_schema_create set_id
resource_schema_create-Closes = search (closing_rules, Closes-Sends, leaves, read-Closes) depth 16

-- Updating a `postgresql_schema`, on every server, from every session and however it ends, has
-- ended every transaction that it began, and the transactions of others are open or not as before.
pub resource_schema_update-Closes : Closes resource_schema_update
unfolding resource_schema_update
resource_schema_update-Closes = search (closing_rules, Closes-Sends, leaves, read-Closes) depth 16
