-- ===== src/Role/Read/Sending.antt =====
-- What reading a role back in postgresql/resource_postgresql_role.go sends.
use terraform_provider_postg.Helpers.Transactions.Sending.{Sends, sends_rules}
use terraform_provider_postg.Role.Read.{
  resource_role_read_impl, store_role, set_id, stored_password, connected_superuser,
  read_role_password, modify_attrs,
}
use terraform_provider_postg.Role.Config.{
  entry_timeout, parsed_timeout, find_entry, read_timeout, first_part,
}
use terraform_provider_postg.Base.{Bool, List, Option, String, none, some}
use terraform_provider_postg.Effect.{RoleRow, Scan, failed, no_rows, row}
use terraform_provider_postg.Text.Decimal.{atoi, ℤ}

parsed_timeout-Sends : (part : String) (n : Option ℤ) → Sends (parsed_timeout part n)
unfolding parsed_timeout
parsed_timeout-Sends part none = search sends_rules
parsed_timeout-Sends part (some n) = search sends_rules

entry_timeout-Sends : (entry : Option (List String)) → Sends (entry_timeout entry)
unfolding entry_timeout
entry_timeout-Sends none = search sends_rules
entry_timeout-Sends (some parts) = parsed_timeout-Sends (first_part parts) (atoi (first_part parts))

read_timeout-Sends : (key : String) (config : List String) → Sends (read_timeout key config)
unfolding read_timeout
read_timeout-Sends key config = entry_timeout-Sends (find_entry key config)

stored_password-Sends : (r : Scan String) → Sends (stored_password r)
unfolding stored_password
stored_password-Sends no_rows = search sends_rules
stored_password-Sends (failed e) = search sends_rules
stored_password-Sends (row password) = search sends_rules

connected_superuser-Sends : Sends connected_superuser
unfolding connected_superuser
connected_superuser-Sends = search sends_rules

read_role_password-Sends : (can_login : Bool) → Sends (read_role_password can_login)
unfolding read_role_password
read_role_password-Sends can_login =
    search (sends_rules, stored_password-Sends, connected_superuser-Sends) depth 16

store_role-Sends : (r : Scan RoleRow) → Sends (store_role r)
unfolding store_role set_id modify_attrs
store_role-Sends no_rows = search sends_rules
store_role-Sends (failed e) = search sends_rules
store_role-Sends (row r) =
    search (sends_rules, read_timeout-Sends, read_role_password-Sends) depth 20

pub resource_role_read_impl-Sends : Sends resource_role_read_impl
unfolding resource_role_read_impl
resource_role_read_impl-Sends = search (sends_rules, store_role-Sends)
