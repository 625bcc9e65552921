-- ===== src/Grant/Read/Sending.antt =====
-- What reading the privileges back in postgresql/resource_postgresql_grant.go sends.
use terraform_provider_postg.Helpers.Transactions.Sending.{Sends, Sends-OnTxn, sends_rules}
use terraform_provider_postg.Grant.Read.{
  compare_objects, read_database_role_privileges, read_role_privileges, read_schema_role_privileges,
  store_privileges, set_privileges, compare_rows,
}
use terraform_provider_postg.Base.{List, String, [], ℕ, ◌∷◌}
use terraform_provider_postg.Effect.{
  Cell, Handle, Rows, Scan, failed, no_rows, refused, row, rows, txn, unread, value,
}
use terraform_provider_postg.Grant.{GrantData}
use terraform_provider_postg.Helpers.Catalog.{get_role_oid}
use terraform_provider_postg.Helpers.Transactions.Statements.{get_role_oid-OnTxn}

store_privileges-Sends : (msg : String) (r : Scan (List String)) → Sends (store_privileges msg r)
unfolding store_privileges set_privileges
store_privileges-Sends msg no_rows = search sends_rules
store_privileges-Sends msg (failed e) = search sends_rules
store_privileges-Sends msg (row privileges) = search sends_rules

compare_objects-Sends :
    (d : GrantData) (cells : List (Cell (String × List String))) → Sends (compare_objects d cells)
unfolding compare_objects set_privileges
compare_objects-Sends d [] = search sends_rules
compare_objects-Sends d (unread e ∷ cells) = search sends_rules
compare_objects-Sends d (value (object, privileges) ∷ cells) =
    let rest = compare_objects-Sends d cells in search sends_rules

compare_rows-Sends : (d : GrantData) (r : Rows (String × List String)) → Sends (compare_rows d r)
unfolding compare_rows
compare_rows-Sends d (refused e) = search sends_rules
compare_rows-Sends d (rows cells) = compare_objects-Sends d cells

read_database_role_privileges-Sends :
    (h : Handle) (role_oid : ℕ) → Sends (read_database_role_privileges h role_oid)
unfolding read_database_role_privileges
read_database_role_privileges-Sends h role_oid = search (sends_rules, store_privileges-Sends)

read_schema_role_privileges-Sends :
    (h : Handle) (role_oid : ℕ) → Sends (read_schema_role_privileges h role_oid)
unfolding read_schema_role_privileges
read_schema_role_privileges-Sends h role_oid = search (sends_rules, store_privileges-Sends)

get_role_oid-Sends : (t : ℕ) (role : String) → Sends (get_role_oid {D = GrantData} (txn t) role)
get_role_oid-Sends t role = Sends-OnTxn t _ (get_role_oid-OnTxn t role)

pub read_role_privileges-Sends : (t : ℕ) → Sends (read_role_privileges (txn t))
unfolding read_role_privileges
read_role_privileges-Sends t =
    search
      (
        sends_rules, compare_rows-Sends, read_database_role_privileges-Sends,
        read_schema_role_privileges-Sends, get_role_oid-Sends,
      )
      depth 16
