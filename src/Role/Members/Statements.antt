-- ===== src/Role/Members/Statements.antt =====
-- Where the statements of postgresql/resource_postgresql_role.go on memberships and settings go.
use terraform_provider_postg.Role.Members.{
  alter_search_path, grant_roles, revoke_roles, set_idle_in_transaction_session_timeout,
  set_statement_timeout, granted_roles, revoke_each, grant_each, set_search_path, set_timeout,
}
use terraform_provider_postg.Base.{List, String, [], ℕ, ◌∷◌}
use terraform_provider_postg.Effect.{Result, Rows, err, ok, panic, refused, rows}
use terraform_provider_postg.Effect.Emits.{Emits}
use terraform_provider_postg.Helpers.Transactions.Statements.{txn_rules, OnTxn}
use terraform_provider_postg.Text.Decimal.{ℤ}

granted_roles-OnTxn :
    (t : ℕ) (role : String) (r : Rows String) → Emits (OnTxn t) (granted_roles role r)
unfolding granted_roles
granted_roles-OnTxn t role (refused e) = search txn_rules
granted_roles-OnTxn t role (rows cells) = search txn_rules

revoke_each-OnTxn :
    (t : ℕ) (role : String) (roles : List String) → Emits (OnTxn t) (revoke_each t role roles)
unfolding revoke_each
revoke_each-OnTxn t role [] = search txn_rules
revoke_each-OnTxn t role (granted ∷ roles) =
    let rest = revoke_each-OnTxn t role roles in search txn_rules depth 10

pub revoke_roles-OnTxn : (t : ℕ) → Emits (OnTxn t) (revoke_roles t)
unfolding revoke_roles
revoke_roles-OnTxn t = search (txn_rules, granted_roles-OnTxn, revoke_each-OnTxn) depth 10

grant_each-OnTxn :
    (t : ℕ) (role : String) (roles : List String) → Emits (OnTxn t) (grant_each t role roles)
unfolding grant_each
grant_each-OnTxn t role [] = search txn_rules
grant_each-OnTxn t role (granting ∷ roles) =
    let rest = grant_each-OnTxn t role roles in search txn_rules depth 10

pub grant_roles-OnTxn : (t : ℕ) → Emits (OnTxn t) (grant_roles t)
unfolding grant_roles
grant_roles-OnTxn t = search (txn_rules, grant_each-OnTxn)

set_search_path-OnTxn :
    (t : ℕ) (role : String) (r : Result (List String)) → Emits (OnTxn t) (set_search_path t role r)
unfolding set_search_path
set_search_path-OnTxn t role (ok quoted) = search txn_rules depth 10
set_search_path-OnTxn t role (err e) = search txn_rules
set_search_path-OnTxn t role panic = search txn_rules

pub alter_search_path-OnTxn : (t : ℕ) → Emits (OnTxn t) (alter_search_path t)
unfolding alter_search_path
alter_search_path-OnTxn t = search (txn_rules, set_search_path-OnTxn)

set_timeout-OnTxn :
    (t : ℕ) (key : String) (timeout : ℤ) → Emits (OnTxn t) (set_timeout t key timeout)
unfolding set_timeout
set_timeout-OnTxn t key timeout = search txn_rules depth 12

pub set_statement_timeout-OnTxn : (t : ℕ) → Emits (OnTxn t) (set_statement_timeout t)
unfolding set_statement_timeout
set_statement_timeout-OnTxn t = search (txn_rules, set_timeout-OnTxn)

pub set_idle_in_transaction_session_timeout-OnTxn :
    (t : ℕ) → Emits (OnTxn t) (set_idle_in_transaction_session_timeout t)
unfolding set_idle_in_transaction_session_timeout
set_idle_in_transaction_session_timeout-OnTxn t = search (txn_rules, set_timeout-OnTxn)
