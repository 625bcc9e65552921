-- ===== src/Helpers/Membership.antt =====
-- Role membership in postgresql/helpers.go, and `withRolesGranted`.
pub mod Outcomes
pub mod Restore
use Prim.Native.String.{◌++◌}
use mathlib.Core.List as List
use terraform_provider_postg.Base.{
  not, String, Bool, true, false, List, [], ◌∷◌, ◌==◌, if◌then◌else◌,
}
use terraform_provider_postg.Effect.{
  Handle, str, Env, M, pure, ask, ◌>>=◌, ◌>>◌, exec_sql, wrap, query_nat,
}
use terraform_provider_postg.Effect.Reading.{found_or}
use terraform_provider_postg.Helpers.Catalog.{get_current_user, is_superuser, role_exists}

abbrev pub membership_query : String
membership_query =
    "SELECT 1 FROM pg_auth_members WHERE pg_get_userbyid(roleid) = $1 AND pg_get_userbyid(member) = $2"

abbrev pub grant_text : Env → String → String → String
grant_text env role member =
    "GRANT " ++ (env.quote_identifier role ++ (" TO " ++ env.quote_identifier member))

abbrev pub revoke_text : Env → String → String → String
revoke_text env role member =
    "REVOKE " ++ (env.quote_identifier role ++ (" FROM " ++ env.quote_identifier member))

abbrev pub append_if : Bool → List String → String → List String
append_if b xs x = if b then List.◌++◌ xs (x ∷ []) else xs

module _ {D : Type 0} (h : Handle) where
  unfoldable pub is_member_of_role : String → String → M D Bool
  is_member_of_role role member = do
    r ← query_nat h membership_query (str role ∷ str member ∷ [])
    found_or "could not read role membership" r

  unfoldable pub grant_now : String → String → M D Bool
  grant_now role member = do
    env ← ask
    wrap ("Error granting role " ++ (role ++ (" to " ++ member)))
        (exec_sql h (grant_text env role member))
    pure true

  -- `false` if the grant is not needed
  unfoldable pub grant_role_membership : String → String → M D Bool
  unfolding grant_now
  grant_role_membership role member = if member == role then pure false else do
    is_member ← is_member_of_role role member
    if is_member then pure false else grant_now role member

  unfoldable pub revoke_now : String → String → M D Bool
  revoke_now role member = do
    env ← ask
    wrap ("Error revoking role " ++ (role ++ (" from " ++ member)))
        (exec_sql h (revoke_text env role member))
    pure true

  -- `false` if the revoke is not needed
  unfoldable pub revoke_role_membership : String → String → M D Bool
  unfolding revoke_now
  revoke_role_membership role member = if member == role then pure false else do
    is_member ← is_member_of_role role member
    if not is_member then pure false else revoke_now role member

  -- One round of the first loop: the roles granted and revoked so far, with those of this round.
  unfoldable pub grant_step :
      String → String → List String → List String → M D (List String × List String)
  grant_step current_user role granted revoked = do
    superuser ← is_superuser h role
    if superuser then pure (granted, revoked) else do
      was_revoked ← revoke_role_membership current_user role
      was_granted ← grant_role_membership role current_user
      pure (append_if was_granted granted role, append_if was_revoked revoked role)

  unfoldable pub grant_loop :
      String → List String → List String → List String → M D (List String × List String)
  grant_loop current_user [] granted revoked = pure (granted, revoked)
  grant_loop current_user (role ∷ roles) granted revoked =
      grant_step current_user role granted revoked >>= λ done.
      grant_loop current_user roles done.0 done.1

  -- Revokes the roles that were granted.
  unfoldable pub undo_granted : String → List String → M D (Unit {0})
  undo_granted current_user [] = pure tt
  undo_granted current_user (role ∷ roles) = do
    revoke_role_membership role current_user
    undo_granted current_user roles

  unfoldable pub regrant : String → String → M D (Unit {0})
  regrant current_user role = do
    exists ← role_exists h role
    if exists then (do grant_role_membership current_user role; pure tt) else pure tt

  -- Grants back what was revoked, to the roles that still exist.
  unfoldable pub undo_revoked : String → List String → M D (Unit {0})
  undo_revoked current_user [] = pure tt
  undo_revoked current_user (role ∷ roles) = do
    regrant current_user role
    undo_revoked current_user roles

  -- the rest of `withRolesGranted`, for a user that is no superuser
  unfoldable pub grant_around : String → List String → M D (Unit {0}) → M D (Unit {0})
  grant_around current_user roles fn = do
    done ← grant_loop current_user roles [] []
    fn
    undo_granted current_user done.0
    undo_revoked current_user done.1

  unfoldable pub with_roles_granted : List String → M D (Unit {0}) → M D (Unit {0})
  unfolding grant_step grant_loop undo_granted regrant undo_revoked grant_around
  with_roles_granted [] fn = fn
  with_roles_granted (first ∷ roles) fn = do
    current_user ← get_current_user h
    superuser ← is_superuser h current_user
    if superuser then fn else grant_around current_user (first ∷ roles) fn
