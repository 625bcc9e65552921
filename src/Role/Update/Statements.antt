-- ===== src/Role/Update/Statements.antt =====
-- Where the statements of postgresql/resource_postgresql_role.go on the role itself go.
use terraform_provider_postg.Role.Update.{
  alter_role, set_role_bypass_rls, set_role_conn_limit, set_role_create_db, set_role_create_role,
  set_role_inherit, set_role_login, set_role_name, set_role_password, set_role_replication,
  set_role_superuser, set_role_valid_until, set_with,
}
use terraform_provider_postg.Role.Read.{set_id}
use terraform_provider_postg.Base.{String, ℕ}
use terraform_provider_postg.Effect.Emits.{Emits, Emits-bind}
use terraform_provider_postg.Helpers.Transactions.Statements.{txn_rules, OnTxn}

set_with-OnTxn : (t : ℕ) (msg word : String) → Emits (OnTxn t) (set_with t msg word)
unfolding set_with
set_with-OnTxn t msg word = search txn_rules

set_role_name-OnTxn : (t : ℕ) → Emits (OnTxn t) (set_role_name t)
unfolding set_role_name set_id
set_role_name-OnTxn t = search txn_rules depth 12

set_role_password-OnTxn : (t : ℕ) → Emits (OnTxn t) (set_role_password t)
unfolding set_role_password
set_role_password-OnTxn t = search txn_rules depth 12

set_role_bypass_rls-OnTxn : (t : ℕ) → Emits (OnTxn t) (set_role_bypass_rls t)
unfolding set_role_bypass_rls
set_role_bypass_rls-OnTxn t = search (txn_rules, set_with-OnTxn) depth 12

set_role_conn_limit-OnTxn : (t : ℕ) → Emits (OnTxn t) (set_role_conn_limit t)
unfolding set_role_conn_limit
set_role_conn_limit-OnTxn t = search txn_rules depth 12

set_role_create_db-OnTxn : (t : ℕ) → Emits (OnTxn t) (set_role_create_db t)
unfolding set_role_create_db
set_role_create_db-OnTxn t = search (txn_rules, set_with-OnTxn)

set_role_create_role-OnTxn : (t : ℕ) → Emits (OnTxn t) (set_role_create_role t)
unfolding set_role_create_role
set_role_create_role-OnTxn t = search (txn_rules, set_with-OnTxn)

set_role_inherit-OnTxn : (t : ℕ) → Emits (OnTxn t) (set_role_inherit t)
unfolding set_role_inherit
set_role_inherit-OnTxn t = search (txn_rules, set_with-OnTxn)

set_role_login-OnTxn : (t : ℕ) → Emits (OnTxn t) (set_role_login t)
unfolding set_role_login
set_role_login-OnTxn t = search (txn_rules, set_with-OnTxn)

set_role_replication-OnTxn : (t : ℕ) → Emits (OnTxn t) (set_role_replication t)
unfolding set_role_replication
set_role_replication-OnTxn t = search (txn_rules, set_with-OnTxn)

set_role_superuser-OnTxn : (t : ℕ) → Emits (OnTxn t) (set_role_superuser t)
unfolding set_role_superuser
set_role_superuser-OnTxn t = search (txn_rules, set_with-OnTxn)

set_role_valid_until-OnTxn : (t : ℕ) → Emits (OnTxn t) (set_role_valid_until t)
unfolding set_role_valid_until
set_role_valid_until-OnTxn t = search txn_rules depth 12

ruleset changes = (
  set_role_name-OnTxn, set_role_password-OnTxn, set_role_bypass_rls-OnTxn,
  set_role_conn_limit-OnTxn, set_role_create_db-OnTxn, set_role_create_role-OnTxn,
  set_role_inherit-OnTxn, set_role_login-OnTxn, set_role_replication-OnTxn,
  set_role_superuser-OnTxn, set_role_valid_until-OnTxn,
)

pub alter_role-OnTxn : (t : ℕ) → Emits (OnTxn t) (alter_role t)
unfolding alter_role
alter_role-OnTxn t = search (Emits-bind, changes) depth 24
