-- ===== src/Database/Handlers/Ending.antt =====
-- How the handlers of postgresql/resource_postgresql_database.go end their transactions.
use terraform_provider_postg.Helpers.Transactions.Sending.{Sends, sends_rules, Closes-Sends}
use terraform_provider_postg.Database.Handlers.{
  create_database, create_body, create_statement, database_found,
}
use terraform_provider_postg.Base.{Bool-cases, String, [], inl, inr, ℕ, ◌∷◌, ◌≡◌}
use terraform_provider_postg.Database.{DatabaseData}
use terraform_provider_postg.Database.Owner.{as_owner, with_membership}
use terraform_provider_postg.Database.Owner.Locking.{Locks, with_role_locked-Closes}
use terraform_provider_postg.Effect.{Env, M, Rows, Session, pool, refused, rows, ◌>>=◌}
use terraform_provider_postg.Effect.Emits.{Emits-bind, Emits-defer, Emits-if}
use terraform_provider_postg.Helpers.Membership.{
  grant_now, grant_role_membership, is_member_of_role, revoke_now, revoke_role_membership,
}
use terraform_provider_postg.Helpers.Transactions.Closing.{is_open}
use terraform_provider_postg.Text.{nonempty}

database_found-Sends : (r : Rows String) → Sends (database_found r)
unfolding database_found
database_found-Sends (refused e) = search sends_rules
database_found-Sends (rows []) = search sends_rules
database_found-Sends (rows (cell ∷ cells)) = search sends_rules

create_statement-Sends : Sends create_statement
unfolding create_statement
create_statement-Sends = search sends_rules

create_body-Sends : Sends create_body
unfolding create_body
create_body-Sends = search (sends_rules, database_found-Sends, create_statement-Sends) depth 12

is_member-Sends : (r m : String) → Sends (is_member_of_role {D = DatabaseData} pool r m)
unfolding is_member_of_role
is_member-Sends r m = search sends_rules

grant-Sends : (r m : String) → Sends (grant_role_membership {D = DatabaseData} pool r m)
unfolding grant_role_membership grant_now
grant-Sends r m = search (sends_rules, is_member-Sends) depth 12

revoke-Sends : (r m : String) → Sends (revoke_role_membership {D = DatabaseData} pool r m)
unfolding revoke_role_membership revoke_now
revoke-Sends r m = search (sends_rules, is_member-Sends) depth 12

with_membership-Sends :
    (owner user : String) (body : M DatabaseData (Unit {0}))
    → Sends body
    → Sends (with_membership owner user body)
unfolding with_membership
with_membership-Sends owner user body h =
    Emits-bind _ _ (grant-Sends owner user)
      λ granted. Emits-if granted _ body (Emits-defer _ body (revoke-Sends owner user) h) h

-- If the server grants the locks on the connected role, then creating a database, however it ends,
-- leaves open no transaction that it began.
pub create_database-closes :
    (env : Env) (s : Session DatabaseData) (u : ℕ)
    → Locks env env.database_username
    → is_open u (create_database env s).1.log ≡ is_open u s.log
unfolding create_database as_owner ◌>>=◌
create_database-closes env s u locks = elim (Bool-cases (nonempty s.res.attrs.owner)) [
  | inl e ↦ rw e (
      with_role_locked-Closes env.database_username _ env s u locks (
        Closes-Sends _ (
          with_membership-Sends s.res.attrs.owner env.database_username create_body
            create_body-Sends)))
  | inr e ↦ rw e ((Closes-Sends create_body create_body-Sends).at env s u)
]
