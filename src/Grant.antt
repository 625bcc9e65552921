-- ===== src/Grant.antt =====
-- postgresql/resource_postgresql_grant.go: the resource `postgresql_grant`.
pub mod Query
pub mod Id
pub mod Read
pub mod Handlers
use terraform_provider_postg.Base.{String, Bool, List}

-- The attributes of the resource, as `d.Get` gives them, and its id. A set is the list of its
-- elements in the order of `List()`.
pub record GrantData : Type 0 where
  pub id : String
  pub role : String
  pub database : String
  pub schema : String
  pub object_type : String
  pub objects : List String
  pub privileges : List String
  pub with_grant_option : Bool
