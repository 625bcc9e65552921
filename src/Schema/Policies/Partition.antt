-- ===== src/Schema/Policies/Partition.antt =====
-- What `schemaChangedPolicies` of postgresql/resource_postgresql_schema.go makes of two lists.
use terraform_provider_postg.Base.{
  sym, arith, Bool-cases, List, Option, Option-cases, String, [], eq_of_beq, if◌then◌else◌, inl,
  inr, none, refl, some, ◌==◌, ◌∙◌, ◌∷◌, ◌≡◌,
}
use terraform_provider_postg.Map.{Map, get, put}
use terraform_provider_postg.Map.Laws.{Unique, get-put, put-Unique}
use terraform_provider_postg.Schema.{Policy}
use terraform_provider_postg.Schema.Policies.{
  entries_unchanged, entries_updated, schema_changed_policies, deep_equal, entries_not_in,
  lookup_map,
}

-- The last policy of a list whose role folds to the key.
pub last_policy : (String → String) → String → List Policy → Option Policy
last_policy fold key [] = none
last_policy fold key (p ∷ ps) = elim (last_policy fold key ps) [
  | some q ↦ some q
  | none ↦ if fold p.role == key then some p else none
]

-- The policy that is before and not after.
pub gone : Option Policy → Option Policy → Option Policy
gone before none = before
gone before (some q) = none

-- Both policies, if they differ.
pub changed : Option Policy → Option Policy → Option (Policy × Policy)
changed (some p) (some q) = if deep_equal p q then none else some (p, q)
changed _ _ = none

-- The policy before, if the one after equals it.
pub kept : Option Policy → Option Policy → Option Policy
kept (some p) (some q) = if deep_equal p q then some p else none
kept _ _ = none

or_else : Option Policy → Option Policy → Option Policy
or_else (some p) o = some p
or_else none o = o

lookup_map_lem :
    (fold : String → String) (key : String) (ps : List Policy) (m : Map Policy)
    → get key (lookup_map fold ps m) ≡ or_else (last_policy fold key ps) (get key m)
unfolding lookup_map last_policy or_else
lookup_map_lem fold key [] m = refl
lookup_map_lem fold key (p ∷ ps) m =
    lookup_map_lem fold key ps (put (fold p.role) p m)
    ∙ rw (get-put (fold p.role) key p m) (elim (Option-cases (last_policy fold key ps)) [
      | inr (q, e) ↦ rw e refl
      | inl e ↦
          rw e (elim (Bool-cases (fold p.role == key)) [ inl f ↦ rw f refl | inr f ↦ rw f refl ])
    ])

lookup_map-Unique :
    (fold : String → String) (ps : List Policy) (m : Map Policy)
    → Unique m
    → Unique (lookup_map fold ps m)
unfolding lookup_map
lookup_map-Unique fold [] m u = u
lookup_map-Unique fold (p ∷ ps) m u = lookup_map-Unique fold ps _ (put-Unique (fold p.role) p m u)

get-entries_not_in :
    (key : String) (other m : Map Policy)
    → get key (entries_not_in other m) ≡ gone (get key m) (get key other)
unfolding get entries_not_in gone
get-entries_not_in key other [] = elim (Option-cases (get key other)) [
  | inl e ↦ rw e refl
  | inr (q, e) ↦ rw e refl
]
get-entries_not_in key other ((k, v) ∷ m) =
    let rest = get-entries_not_in key other m in
    elim (Bool-cases (k == key)) [
      | inl e ↦ ground (arith, rest, e, eq_of_beq k key e)
      | inr e ↦ ground (arith, rest, e)
    ]

get-entries_updated :
    (key : String) (new m : Map Policy)
    → Unique m
    → get key (entries_updated new m) ≡ changed (get key m) (get key new)
unfolding get entries_updated changed
get-entries_updated key new [] u = refl
get-entries_updated key new ((k, v) ∷ m) (u, us) =
    let rest = get-entries_updated key new m us in
    elim (Bool-cases (k == key)) [
      | inl e ↦ ground (arith, rest, e, eq_of_beq k key e, u)
      | inr e ↦ ground (arith, rest, e)
    ]

get-entries_unchanged :
    (key : String) (new m : Map Policy)
    → Unique m
    → get key (entries_unchanged new m) ≡ kept (get key m) (get key new)
unfolding get entries_unchanged kept
get-entries_unchanged key new [] u = refl
get-entries_unchanged key new ((k, v) ∷ m) (u, us) =
    let rest = get-entries_unchanged key new m us in
    elim (Bool-cases (k == key)) [
      | inl e ↦ ground (arith, rest, e, eq_of_beq k key e, u)
      | inr e ↦ ground (arith, rest, e)
    ]

from_empty :
    (fold : String → String) (key : String) (ps : List Policy)
    → get key (lookup_map fold ps []) ≡ last_policy fold key ps
unfolding or_else get
from_empty fold key ps =
    lookup_map_lem fold key ps []
    ∙ elim (Option-cases (last_policy fold key ps)) [ inl e ↦ rw e refl | inr (q, e) ↦ rw e refl ]

-- For every way to fold role names, every two lists of policies and every key, the four maps of
-- `schemaChangedPolicies` hold what the last policies of that key in the two lists say: dropped if
-- only the old one is there, added if only the new one is, updated with both if they differ, and
-- unchanged if they are equal.
pub schema_changed_policies_lem :
    (fold : String → String) (old new : List Policy) (key : String)
    → let before = last_policy fold key old in
      let after = last_policy fold key new in
      let changes = schema_changed_policies fold old new in
      (get key changes.dropped ≡ gone before after)
      × (get key changes.added ≡ gone after before)
      × (get key changes.updated ≡ changed before after)
      × (get key changes.unchanged ≡ kept before after)
unfolding schema_changed_policies
schema_changed_policies_lem fold old new key =
    let old_map = lookup_map fold old [] in
    let new_map = lookup_map fold new [] in
    let unique = lookup_map-Unique fold old [] tt in
    rw (sym (from_empty fold key old), sym (from_empty fold key new))
      (
        get-entries_not_in key new_map old_map,
        get-entries_not_in key old_map new_map,
        get-entries_updated key new_map old_map unique,
        get-entries_unchanged key new_map old_map unique,
      )
