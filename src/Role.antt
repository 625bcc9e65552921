-- ===== src/Role.antt =====
-- postgresql/resource_postgresql_role.go: the resource `postgresql_role`.
pub mod Config
pub mod Members
pub mod Create
pub mod Read
pub mod Update
pub mod Handlers
use terraform_provider_postg.Base.{String, Bool, List}
use terraform_provider_postg.Text.Decimal.{ℤ}

pub record RoleAttrs : Type 0 where
  pub name : String
  pub password : String
  pub encrypted_password : Bool
  pub roles : List String
  pub search_path : List String
  pub valid_until : String
  pub connection_limit : ℤ
  pub superuser : Bool
  pub create_database : Bool
  pub create_role : Bool
  pub idle_in_transaction_session_timeout : ℤ
  pub inherit : Bool
  pub login : Bool
  pub replication : Bool
  pub bypass_row_level_security : Bool
  pub skip_drop_role : Bool
  pub skip_reassign_owned : Bool
  pub statement_timeout : ℤ
  pub create_if_not_exists : Bool

-- The attributes that `d.Get` gives, and those of the state before the change (`d.GetChange`).
pub record RoleData : Type 0 where
  pub id : String
  pub attrs : RoleAttrs
  pub old : RoleAttrs
