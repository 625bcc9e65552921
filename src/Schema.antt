-- ===== src/Schema.antt =====
-- postgresql/resource_postgresql_schema.go: the resource `postgresql_schema`.
pub mod Policies
pub mod Id
pub mod Changes
pub mod Handlers
use terraform_provider_postg.Base.{String, Bool, List}

-- An element of the set `policy`. The SDK gives each of its maps all the keys.
pub record Policy : Type 0 where
  pub role : String
  pub create : Bool
  pub create_with_grant : Bool
  pub usage : Bool
  pub usage_with_grant : Bool

-- The attributes, and those of the state before the change (`GetChange`).
pub record SchemaData : Type 0 where
  pub id : String
  pub name : String
  pub old_name : String
  pub database : String
  pub owner : String
  pub old_owner : String
  pub if_not_exists : Bool
  pub drop_cascade : Bool
  pub policy : List Policy
  pub old_policy : List Policy
  -- `HasChange("policy")`, which compares sets
  pub policy_changed : Bool
