-- ===== src/Database.antt =====
-- postgresql/resource_postgresql_database.go: the resource `postgresql_database`.
pub mod Owner
pub mod Create
pub mod Read
pub mod Changes
pub mod Handlers
use terraform_provider_postg.Base.{String, Bool}
use terraform_provider_postg.Text.Decimal.{ℤ}

pub record DatabaseAttrs : Type 0 where
  pub name : String
  pub owner : String
  pub template : String
  pub encoding : String
  pub lc_collate : String
  pub lc_ctype : String
  pub tablespace_name : String
  pub connection_limit : ℤ
  pub allow_connections : Bool
  pub is_template : Bool
  pub create_if_not_exists : Bool

-- The attributes that `d.Get` gives, and those of the state before the change (`d.GetChange`).
pub record DatabaseData : Type 0 where
  pub id : String
  pub attrs : DatabaseAttrs
  pub old : DatabaseAttrs
