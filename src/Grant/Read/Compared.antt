-- ===== src/Grant/Read/Compared.antt =====
-- What the loop of `readRolePrivileges` in postgresql/resource_postgresql_grant.go stores.
use mathlib.Core.Bool.{true≢false}
use mathlib.Core.List.{◌++◌}
use terraform_provider_postg.Grant.Query.{has_objects}
use terraform_provider_postg.Grant.Read.{compare_objects, skips, set_privileges}
use terraform_provider_postg.Helpers.Privileges.{slice_contains_str}
use terraform_provider_postg.Helpers.Privileges.Allowed.{IsOneOf, slice_contains_str_iff}
use terraform_provider_postg.Base.{
  arith, ◌⊎◌, All, Bool-cases, List, String, [], inl, inr, not, refl, ap, sym, false, true, ◌&&◌,
  ◌∷◌, ◌≡◌, ◌∙◌,
}
use terraform_provider_postg.Effect.{Cell, Env, Result, Session, ok, err, panic, value, ◌>>=◌}
use terraform_provider_postg.Grant.{GrantData}

-- The objects of one answer, all of which could be read.
pub read_cells : List (String × List String) → List (Cell (String × List String))
read_cells [] = []
read_cells (object ∷ objects) = value object ∷ read_cells objects

-- A grant without objects is on all of the schema.
abbrev pub IsOfGrant : GrantData → String → Type 0
IsOfGrant d object = (d.objects ≡ []) ⊎ IsOneOf object d.objects

-- The server's privileges on an object are the set of the state.
abbrev pub IsAsStored : Env → GrantData → List String → Type 0
IsAsStored env d privileges = env.set_equal (env.new_set privileges) d.privileges ≡ true

-- An object that is none of the grant's, or has the privileges of the state.
abbrev pub IsInOrder : Env → GrantData → String × List String → Type 0
IsInOrder env d (object, privileges) = (¬ IsOfGrant d object) ⊎ IsAsStored env d privileges

-- Either all objects are in order and the session stays as it is, or one of the grant is not, all
-- before it are, and its privileges are stored.
abbrev pub StoresFirst :
    Env → GrantData → List (String × List String) → Session GrantData → Session GrantData → Type 0
StoresFirst env d objects s t =
    (All (IsInOrder env d) objects × (t ≡ s))
    ⊎ ((before : List (String × List String)) × (object : String) × (privileges : List String)
        × (after : List (String × List String)) × (objects ≡ before ++ (object, privileges) ∷ after)
        × All (IsInOrder env d) before
        × IsOfGrant d object
        × (¬ IsAsStored env d privileges)
        × (t ≡ record s { res = record (s.res) { privileges = env.new_set privileges } }))

-- The program succeeds, in a session that stores so.
abbrev pub Compares :
    Env
    → GrantData
    → List (String × List String)
    → Session GrantData
    → Result (Unit {0}) × Session GrantData
    → Type 0
Compares env d objects s (ok u, t) = StoresFirst env d objects s t
Compares env d objects s (err e, t) = ⊥
Compares env d objects s (panic, t) = ⊥

skips-not : (d : GrantData) (object : String) → skips d object ≡ true → ¬ IsOfGrant d object
skips-not d object h (inl e) =
    true≢false (sym h ∙ ap (λ os. has_objects os && not (slice_contains_str os object)) e)
skips-not d object h (inr m) =
    let found = (slice_contains_str_iff d.objects object).1 m in ground (arith, found, h)

of_objects :
    (objects : List String) (object : String)
    → (has_objects objects && not (slice_contains_str objects object)) ≡ false
    → (objects ≡ []) ⊎ IsOneOf object objects
of_objects [] object h = inl refl
of_objects (o ∷ objects) object h =
    inr ((slice_contains_str_iff (o ∷ objects) object).0 (ground (arith, h)))

after_first :
    (env : Env) (d : GrantData) (o : String × List String) (objects : List (String × List String))
    (s t : Session GrantData)
    → IsInOrder env d o
    → StoresFirst env d objects s t
    → StoresFirst env d (o ∷ objects) s t
after_first env d o objects s t h (inl (hs, e)) = inl ((h, hs), e)
after_first env d o objects s t h (inr (before, object, privileges, after, e, hs, g, n, k)) =
    inr (o ∷ before, object, privileges, after, ap (λ os. o ∷ os) e, (h, hs), g, n, k)

Compares-cons :
    (env : Env) (d : GrantData) (o : String × List String) (objects : List (String × List String))
    (s : Session GrantData) (r : Result (Unit {0}) × Session GrantData)
    → IsInOrder env d o
    → Compares env d objects s r
    → Compares env d (o ∷ objects) s r
Compares-cons env d o objects s (ok u, t) h c = after_first env d o objects s t h c
Compares-cons env d o objects s (err e, t) h c = absurd c
Compares-cons env d o objects s (panic, t) h c = absurd c

-- For every grant, every server and every session, the loop of `readRolePrivileges` over objects
-- that could all be read succeeds and sends nothing. Either no object of the grant has other
-- privileges than the state, and nothing is stored, or the privileges of the first that has are
-- stored; a grant without objects is on all of them.
pub compare_objects_lem :
    (d : GrantData) (objects : List (String × List String)) (env : Env) (s : Session GrantData)
    → Compares env d objects s (compare_objects d (read_cells objects) env s)
unfolding compare_objects read_cells set_privileges ◌>>=◌
compare_objects_lem d [] env s = inl (tt, refl)
compare_objects_lem d ((object, privileges) ∷ objects) env s =
    let rest = compare_objects_lem d objects env s in
    let o : String × List String = (object, privileges) in
    let behind = compare_objects d (read_cells objects) env s in
    elim (Bool-cases (skips d object)) [
      | inl e ↦ rw e (Compares-cons env d o objects s behind (inl (skips-not d object e)) rest)
      | inr e ↦ elim (Bool-cases (env.set_equal (env.new_set privileges) d.privileges)) [
        | inl f ↦ rw (e, f) (Compares-cons env d o objects s behind (inr f) rest)
        | inr f ↦
            rw (e, f)
              (inr (
                [],
                object,
                privileges,
                objects,
                refl,
                tt,
                of_objects d.objects object e,
                (λ h. true≢false (sym h ∙ f)),
                refl,
              ))
      ]
    ]
