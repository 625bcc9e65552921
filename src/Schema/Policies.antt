-- ===== src/Schema/Policies.antt =====
-- `schemaChangedPolicies` and `schemaPolicyToACL` of postgresql/resource_postgresql_schema.go.
pub mod Partition
use Prim.Native.Nat.{bit_or}
use terraform_provider_postg.Schema.{Policy}
use terraform_provider_postg.Base.{
  Bool, List, String, [], false, if◌then◌else◌, none, not, some, true, ℕ, ◌&&◌, ◌==◌, ◌∷◌,
}
use terraform_provider_postg.Effect.{AclSchema, Env}
use terraform_provider_postg.Map.{Map, get, put}

abbrev bool_eq : Bool → Bool → Bool
bool_eq true b = b
bool_eq false b = not b

-- reflect.DeepEqual on two policies
unfoldable pub deep_equal : Policy → Policy → Bool
deep_equal p q =
    p.role == q.role
    && bool_eq p.create q.create
    && bool_eq p.create_with_grant q.create_with_grant
    && bool_eq p.usage q.usage
    && bool_eq p.usage_with_grant q.usage_with_grant

-- What changed, by the lower-case name of the role.
pub record Changes : Type 0 where
  pub dropped : Map Policy
  pub added : Map Policy
  pub updated : Map (Policy × Policy)
  pub unchanged : Map Policy

-- The first two loops: a later policy of a role replaces an earlier one. `fold` is
-- `strings.ToLower`.
pub lookup_map : (String → String) → List Policy → Map Policy → Map Policy
lookup_map fold [] m = m
lookup_map fold (p ∷ ps) m = lookup_map fold ps (put (fold p.role) p m)

-- The entries whose keys the other map lacks.
pub entries_not_in : Map Policy → Map Policy → Map Policy
entries_not_in other [] = []
entries_not_in other ((k, v) ∷ m) = elim (get k other) [
  | none ↦ (k, v) ∷ entries_not_in other m
  | some _ ↦ entries_not_in other m
]

pub entries_updated : Map Policy → Map Policy → Map (Policy × Policy)
entries_updated new [] = []
entries_updated new ((k, v) ∷ m) = elim (get k new) [
  | none ↦ entries_updated new m
  | some w ↦ if deep_equal v w then entries_updated new m else (k, (v, w)) ∷ entries_updated new m
]

pub entries_unchanged : Map Policy → Map Policy → Map Policy
entries_unchanged new [] = []
entries_unchanged new ((k, v) ∷ m) = elim (get k new) [
  | none ↦ entries_unchanged new m
  | some w ↦ if deep_equal v w then (k, v) ∷ entries_unchanged new m else entries_unchanged new m
]

unfoldable pub schema_changed_policies : (String → String) → List Policy → List Policy → Changes
unfolding lookup_map entries_not_in entries_updated entries_unchanged
schema_changed_policies fold old new =
    let old_map = lookup_map fold old [] in
    let new_map = lookup_map fold new [] in
    record {
      dropped = entries_not_in new_map old_map;
      added = entries_not_in old_map new_map;
      updated = entries_updated new_map old_map;
      unchanged = entries_unchanged new_map old_map;
    }

-- `rolePolicy.Privileges |= bit`, and the grant options with them
abbrev with_bits : Bool → Bool → ℕ → AclSchema → AclSchema
with_bits privilege option bits a =
    let held = if privilege then record a { privileges = bit_or a.privileges bits } else a in
    if option
    then record held {
      privileges = bit_or held.privileges bits;
      grant_options = bit_or held.grant_options bits;
    }
    else held

unfoldable pub schema_policy_to_acl : Env → Policy → AclSchema
schema_policy_to_acl env p =
    let empty : AclSchema = record {
      role = "";
      granted_by = "";
      privileges = 0;
      grant_options = 0;
    } in
    let created = with_bits p.create p.create_with_grant env.acl_create empty in
    record (with_bits p.usage p.usage_with_grant env.acl_usage created) { role = p.role }
