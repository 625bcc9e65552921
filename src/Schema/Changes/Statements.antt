-- ===== src/Schema/Changes/Statements.antt =====
-- Where the statements of an update in postgresql/resource_postgresql_schema.go go.
use terraform_provider_postg.Base.{List, String, [], ℕ, ◌∷◌}
use terraform_provider_postg.Effect.Emits.{Emits}
use terraform_provider_postg.Schema.Changes.{set_id}
use terraform_provider_postg.Helpers.Transactions.Statements.{
  txn_rules, OnTxn, with_roles_granted-OnTxn,
}
use terraform_provider_postg.Schema.{Policy}
use terraform_provider_postg.Schema.Changes.{
  all_dropped_queries, dropped_queries, exec_all, set_schema_name, set_schema_owner,
  set_schema_policy,
}

pub set_schema_name-OnTxn : (t : ℕ) (name : String) → Emits (OnTxn t) (set_schema_name t name)
unfolding set_schema_name set_id
set_schema_name-OnTxn t name = search txn_rules depth 12

pub set_schema_owner-OnTxn : (t : ℕ) → Emits (OnTxn t) (set_schema_owner t)
unfolding set_schema_owner
set_schema_owner-OnTxn t = search txn_rules depth 12

pub exec_all-OnTxn :
    (t : ℕ) (msg : String) (queries : List String) → Emits (OnTxn t) (exec_all t msg queries)
unfolding exec_all
exec_all-OnTxn t msg [] = search txn_rules
exec_all-OnTxn t msg (sql ∷ queries) = let rest = exec_all-OnTxn t msg queries in search txn_rules

dropped_queries-OnTxn :
    (t : ℕ) (schema_name : String) (p : Policy) → Emits (OnTxn t) (dropped_queries t schema_name p)
unfolding dropped_queries
dropped_queries-OnTxn t schema_name p = search txn_rules depth 12

all_dropped_queries-OnTxn :
    (t : ℕ) (schema_name : String) (ps : List Policy)
    → Emits (OnTxn t) (all_dropped_queries t schema_name ps)
unfolding all_dropped_queries
all_dropped_queries-OnTxn t schema_name [] = search txn_rules
all_dropped_queries-OnTxn t schema_name (p ∷ ps) =
    let rest = all_dropped_queries-OnTxn t schema_name ps in
    search (txn_rules, dropped_queries-OnTxn)

pub set_schema_policy-OnTxn : (t : ℕ) → Emits (OnTxn t) (set_schema_policy t)
unfolding set_schema_policy
set_schema_policy-OnTxn t =
    search (txn_rules, all_dropped_queries-OnTxn, exec_all-OnTxn, with_roles_granted-OnTxn) depth 12
