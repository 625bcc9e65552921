-- ===== src/Helpers/Privileges/Allowed.antt =====
-- What `validatePrivileges` of postgresql/helpers.go accepts.
use mathlib.Core.Option.{Option, some-injective}
use terraform_provider_postg.Helpers.Privileges.{
  check_entry, check_all, lookup, allowed_privileges, validate_privileges, slice_contains_str,
}
use mathlib.Core.Bool.{Bool, true≢false}
use terraform_provider_postg.Base.{
  false, if◌then◌else◌, ◌∙◌, eq_iff, eq_of_beq, ◌⊎◌, ◌==◌, sym, All, Bool-cases, List, String, [],
  inl, inr, none, refl, some, subst, true, ◌↔◌, ◌∷◌, ◌≡◌,
}

-- The text stands in the list.
abbrev pub IsOneOf : String → List String → Type 0
IsOneOf x [] = ⊥
IsOneOf x (y ∷ ys) = (y ≡ x) ⊎ IsOneOf x ys

pub slice_contains_str_iff :
    (xs : List String) (x : String) → (slice_contains_str xs x ≡ true) ↔ IsOneOf x xs
unfolding slice_contains_str
slice_contains_str_iff [] x = ((λ h. absurd (true≢false (sym h))), λ h. absurd h)
slice_contains_str_iff (y ∷ ys) x =
    let rest = slice_contains_str_iff ys x in
    elim (Bool-cases (y == x)) [
      | inl e ↦ rw e ((λ h. inl (eq_of_beq y x e)), λ h. refl)
      | inr e ↦ rw e (
        (λ h. inr (rest.0 h)),
        λ h. elim h [ inl p ↦ absurd (true≢false (sym ((eq_iff y x).1 p) ∙ e)) | inr q ↦ rest.1 q ],
      )
    ]

-- The types of objects of a grant, their names, and the privileges of each.
pub data ObjectType : Type 0 where
  database table sequence schema function type : ObjectType

abbrev pub type_name : ObjectType → String
type_name database = "database"
type_name table = "table"
type_name sequence = "sequence"
type_name schema = "schema"
type_name function = "function"
type_name type = "type"

abbrev pub privileges_of : ObjectType → List String
privileges_of database = "ALL" ∷ "CREATE" ∷ "CONNECT" ∷ "TEMPORARY" ∷ "TEMP" ∷ []
privileges_of table =
    "ALL" ∷ "SELECT" ∷ "INSERT" ∷ "UPDATE" ∷ "DELETE" ∷ "TRUNCATE" ∷ "REFERENCES" ∷ "TRIGGER" ∷ []
privileges_of sequence = "ALL" ∷ "USAGE" ∷ "SELECT" ∷ "UPDATE" ∷ []
privileges_of schema = "ALL" ∷ "CREATE" ∷ "USAGE" ∷ []
privileges_of function = "ALL" ∷ "EXECUTE" ∷ []
privileges_of type = "ALL" ∷ "USAGE" ∷ []

contained_iff :
    (allowed privileges : List String)
    → All (λ p. slice_contains_str allowed p ≡ true) privileges
      ↔ All (λ p. IsOneOf p allowed) privileges
contained_iff allowed [] = ((λ h. tt), λ h. tt)
contained_iff allowed (p ∷ privileges) =
    let first = slice_contains_str_iff allowed p in
    let rest = contained_iff allowed privileges in
    ((λ (h, hs). (first.0 h, rest.0 hs)), λ (h, hs). (first.1 h, rest.1 hs))

-- An entry of the map, with its key.
abbrev Entry : String → List String → List (String × List String) → Type 0
Entry key v [] = ⊥
Entry key v ((k, w) ∷ pairs) = ((k ≡ key) × (w ≡ v)) ⊎ Entry key v pairs

lookup-Entry :
    (key : String) (v : List String) (pairs : List (String × List String))
    → lookup key pairs ≡ some v
    → Entry key v pairs
unfolding lookup
lookup-Entry key v [] h = cc
lookup-Entry key v ((k, w) ∷ pairs) h = by_key (k == key) refl (lookup-Entry key v pairs) h
  where
    by_key :
        (b : Bool)
        → (k == key) ≡ b
        → (lookup key pairs ≡ some v → Entry key v pairs)
        → (if b then some w else lookup key pairs) ≡ some v
        → Entry key v ((k, w) ∷ pairs)
    by_key true e rest f = inl (eq_of_beq k key e, some-injective w v f)
    by_key false e rest f = inr (rest f)

abbrev Known : String → List String → Type 0
Known object_type allowed =
    (k : ObjectType) × (type_name k ≡ object_type) × (privileges_of k ≡ allowed)

known :
    (object_type : String) (v : List String)
    → Entry object_type v allowed_privileges
    → Known object_type v
known object_type v (inl (e, f)) = (database, e, f)
known object_type v (inr (inl (e, f))) = (table, e, f)
known object_type v (inr (inr (inl (e, f)))) = (sequence, e, f)
known object_type v (inr (inr (inr (inl (e, f))))) = (schema, e, f)
known object_type v (inr (inr (inr (inr (inl (e, f)))))) = (function, e, f)
known object_type v (inr (inr (inr (inr (inr (inl (e, f))))))) = (type, e, f)
known object_type v (inr (inr (inr (inr (inr (inr h)))))) = absurd h

lookup-type_name :
    (k : ObjectType) → lookup (type_name k) allowed_privileges ≡ some (privileges_of k)
unfolding lookup
lookup-type_name database = refl
lookup-type_name table = refl
lookup-type_name sequence = refl
lookup-type_name schema = refl
lookup-type_name function = refl
lookup-type_name type = refl

check_all_iff :
    (object_type : String) (allowed privileges : List String)
    → (check_all object_type allowed privileges ≡ none)
      ↔ All (λ p. slice_contains_str allowed p ≡ true) privileges
unfolding check_all
check_all_iff object_type allowed [] = ((λ e. tt), λ h. refl)
check_all_iff object_type allowed (p ∷ privileges) =
    let rest = check_all_iff object_type allowed privileges in
    elim (Bool-cases (slice_contains_str allowed p)) [
      | inl e ↦ rw e ((λ h. (refl, rest.0 h)), λ h. rest.1 h.1)
      | inr e ↦ rw e ((λ h. cc), λ h. cc)
    ]

check_entry_iff :
    (object_type : String) (privileges : List String) (entry : Option (List String))
    → (check_entry object_type privileges entry ≡ none)
      ↔ ((allowed : List String) × (entry ≡ some allowed) × All (λ p. IsOneOf p allowed) privileges)
unfolding check_entry
check_entry_iff object_type privileges none = ((λ h. cc), λ (allowed, h, k). cc)
check_entry_iff object_type privileges (some found) = (
  (λ h. (
    found,
    refl,
    (contained_iff found privileges).0 ((check_all_iff object_type found privileges).0 h),
  )),
  λ (allowed, h, k). (check_all_iff object_type found privileges).1 (
      (contained_iff found privileges).1
        (subst (λ a. All (λ p. IsOneOf p a) privileges) (sym (some-injective found allowed h)) k)),
)

-- For every object type and every list of privileges, `validatePrivileges` accepts the privileges
-- exactly if the object type is one of the six that a grant can have and all of them are among the
-- privileges of that type.
pub validate_privileges_iff :
    (object_type : String) (privileges : List String)
    → (validate_privileges object_type privileges ≡ none) ↔ (
        (k : ObjectType) × (type_name k ≡ object_type)
        × All (λ p. IsOneOf p (privileges_of k)) privileges)
unfolding validate_privileges
validate_privileges_iff object_type privileges =
    let entry = check_entry_iff object_type privileges (lookup object_type allowed_privileges) in
    (
      (λ h.
          let (allowed, found, ok) = entry.0 h in
          let (k, name, same) =
            known object_type allowed (lookup-Entry object_type allowed allowed_privileges found) in
          (k, name, subst (λ a. All (λ p. IsOneOf p a) privileges) (sym same) ok)),
      λ (k, name, ok). entry.1 (
        privileges_of k,
        subst (λ t. lookup t allowed_privileges ≡ some (privileges_of k)) name (lookup-type_name k),
        ok,
      ),
    )
