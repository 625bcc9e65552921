-- ===== src/Helpers.antt =====
-- postgresql/helpers.go: transactions, the catalog queries, and locks. Its children model
-- quoting, role membership and privileges.
pub mod Transactions
pub mod Catalog
pub mod Membership
pub mod Quote
pub mod Privileges
