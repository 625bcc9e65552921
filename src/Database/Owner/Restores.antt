-- ===== src/Database/Owner/Restores.antt =====
-- What the temporary membership of postgresql/resource_postgresql_database.go leaves behind.
use terraform_provider_postg.Helpers.Membership.Outcomes.{
  MembershipView, Names, SameMembers, Granted, Revoked, Answers,
}
use terraform_provider_postg.Helpers.Membership.{
  revoke_now, revoke_role_membership, grant_role_membership, grant_text, grant_now,
  is_member_of_role, membership_query, revoke_text,
}
use terraform_provider_postg.Base.{
  arith, eq_iff, eq_refl, not, true, Bool, Bool-cases, List, Option-cases, String, [], false,
  if◌then◌else◌, inl, inr, none, refl, some, ℕ, ◌==◌, ◌∙◌, ◌∷◌, ◌≡◌, ◌≢◌,
}
use terraform_provider_postg.Effect.{
  M, continue, defer, pool, Arg, Env, Error, Handle, Log, Result, Scan, Session, ask_server, err,
  exec, exec_args, failed, no_rows, ok, panic, pure, row, str, wrap, ◌>>=◌,
}
use terraform_provider_postg.Effect.Reading.{found_or}
use terraform_provider_postg.Database.Owner.{with_membership}

-- A server on which membership queries and REVOKEs work, and a statement that fails changes no
-- membership.
pub record Works {env : Env} {h : Handle} (v : MembershipView env h) : Type 0 where
  pub failed_keeps :
      (log : Log) (sql : String) (args : List Arg) (e : Error) (r m : String)
      → v.member (exec h sql args (some e) ∷ log) r m ≡ v.member log r m
  pub query_works :
      (log : Log) (r m : String) (e : Error)
      → env.scan_nat log h membership_query (str r ∷ str m ∷ []) ≢ failed e
  pub revoke_works :
      (log : Log) (role mem : String) → env.exec_error log h (revoke_text env role mem) [] ≡ none

module _ {D : Type 0} {env : Env} {h : Handle} (v : MembershipView env h) (w : Works v) where
  -- However the grant ends: with its outcome, or with the memberships as they were.
  GrantEnds : String → String → Session D → Result Bool × Session D → Type 0
  GrantEnds role mem s (ok b, s') = Granted v role mem s b s'
  GrantEnds role mem s (err e, s') = SameMembers v s.log s'.log
  GrantEnds role mem s (panic, s') = ⊥

  RevokeEnds : String → String → Session D → Result Bool × Session D → Type 0
  RevokeEnds role mem s (ok b, s') = Revoked v role mem s b s'
  RevokeEnds role mem s (err e, s') = ⊥
  RevokeEnds role mem s (panic, s') = ⊥

  grant_now-GrantEnds :
      (role mem : String) (s s' : Session D)
      → Names v role mem
      → (mem == role) ≡ false
      → v.member s.log role mem ≡ false
      → SameMembers v s.log s'.log
      → GrantEnds role mem s (grant_now h role mem env s')
  unfolding GrantEnds grant_now exec_args wrap ◌>>=◌
  grant_now-GrantEnds role mem s s' n ne known same =
      elim (Option-cases (env.exec_error s'.log h (grant_text env role mem) [])) [
        | inl e ↦ rw e (ne, known, λ r m. rw (v.grant_sets s'.log role mem r m n.0 n.1, same r m))
        | inr (x, e) ↦ rw e (λ r m. w.failed_keeps s'.log _ _ x r m ∙ same r m)
      ]

  answered_grant :
      (role mem : String) (s s' : Session D) (o : Scan ℕ)
      → Names v role mem
      → (mem == role) ≡ false
      → SameMembers v s.log s'.log
      → Answers (v.member s.log role mem) o
      → ((e : Error) → o ≢ failed e)
      → GrantEnds role mem s (
          (found_or "could not read role membership" o >>= λ b.
          if b then pure false else grant_now h role mem)
            env s')
  unfolding GrantEnds ◌>>=◌
  answered_grant role mem s s' no_rows n ne same a works =
      grant_now-GrantEnds role mem s s' n ne a same
  answered_grant role mem s s' (failed e) n ne same a works = absurd (works e refl)
  answered_grant role mem s s' (row x) n ne same a works = (inr a, same)

  grant_ends :
      (role mem : String) (s : Session D)
      → Names v role mem
      → GrantEnds role mem s (grant_role_membership h role mem env s)
  unfolding GrantEnds grant_role_membership is_member_of_role ask_server ◌>>=◌
  grant_ends role mem s n = elim (Bool-cases (mem == role)) [
    | inl e ↦ rw e (inl e, λ r m. refl)
    | inr e ↦ rw e (
        answered_grant role mem s _
          (env.scan_nat s.log h membership_query (str role ∷ str mem ∷ [])) n e
          (λ r m. v.query_keeps s.log _ _ r m) (v.answers s.log role mem)
          (w.query_works s.log role mem))
  ]

  revoke_now-RevokeEnds :
      (role mem : String) (s s' : Session D)
      → Names v role mem
      → (mem == role) ≡ false
      → v.member s.log role mem ≡ true
      → SameMembers v s.log s'.log
      → RevokeEnds role mem s (revoke_now h role mem env s')
  unfolding RevokeEnds revoke_now exec_args wrap ◌>>=◌
  revoke_now-RevokeEnds role mem s s' n ne known same =
      rw (w.revoke_works s'.log role mem)
        (ne, known, λ r m. rw (v.revoke_clears s'.log role mem r m n.0 n.1, same r m))

  answered_revoke :
      (role mem : String) (s s' : Session D) (o : Scan ℕ)
      → Names v role mem
      → (mem == role) ≡ false
      → SameMembers v s.log s'.log
      → Answers (v.member s.log role mem) o
      → ((e : Error) → o ≢ failed e)
      → RevokeEnds role mem s (
          (found_or "could not read role membership" o >>= λ b.
          if not b then pure false else revoke_now h role mem)
            env s')
  unfolding RevokeEnds ◌>>=◌
  answered_revoke role mem s s' no_rows n ne same a works = (inr a, same)
  answered_revoke role mem s s' (failed e) n ne same a works = absurd (works e refl)
  answered_revoke role mem s s' (row x) n ne same a works =
      revoke_now-RevokeEnds role mem s s' n ne a same

  revoke_ends :
      (role mem : String) (s : Session D)
      → Names v role mem
      → RevokeEnds role mem s (revoke_role_membership h role mem env s)
  unfolding RevokeEnds revoke_role_membership is_member_of_role ask_server ◌>>=◌
  revoke_ends role mem s n = elim (Bool-cases (mem == role)) [
    | inl e ↦ rw e (inl e, λ r m. refl)
    | inr e ↦ rw e (
        answered_revoke role mem s _
          (env.scan_nat s.log h membership_query (str role ∷ str mem ∷ [])) n e
          (λ r m. v.query_keeps s.log _ _ r m) (v.answers s.log role mem)
          (w.query_works s.log role mem))
  ]

  -- The grant, what runs in between, and the revoke.
  undone :
      (role mem : String) (s s' s2 : Session D) (o : Result Bool × Session D)
      → Granted v role mem s true s'
      → SameMembers v s'.log s2.log
      → RevokeEnds role mem s2 o
      → SameMembers v s.log o.1.log
  unfolding RevokeEnds
  undone role mem s s' s2 (ok true, s3) (ne, was, now) between (ne', known, cleared) =
      λ r m. ground (arith, cleared r m, between r m, now r m, eq_iff role r, eq_iff mem m, was)
  undone role mem s s' s2 (ok false, s3) (ne, was, now) between (why, same) =
      λ r m. ground (arith, ne, why, between role mem, now role mem, eq_refl role, eq_refl mem)
  undone role mem s s' s2 (err e, s3) g between u = absurd u
  undone role mem s s' s2 (panic, s3) g between u = absurd u

module _ {D A : Type 0} {env : Env} (v : MembershipView env pool) (w : Works v) where
  around :
      (owner user : String) (body : M D A) (s : Session D) (o : Result Bool × Session D)
      → Names v owner user
      → GrantEnds v w owner user s o
      → ((s' : Session D) → SameMembers v s'.log (body env s').1.log)
      → SameMembers v s.log
          (continue o.0
            (λ granted.
              if granted then defer (revoke_role_membership pool owner user) body else body)
            env
            o.1).1.log
  unfolding GrantEnds defer
  around owner user body s (ok true, s') n g keeps =
      undone v w owner user s s' (body env s').1
        (revoke_role_membership pool owner user env (body env s').1) g (keeps s')
        (revoke_ends v w owner user (body env s').1 n)
  around owner user body s (ok false, s') n (why, same) keeps = λ r m. keeps s' r m ∙ same r m
  around owner user body s (err e, s') n same keeps = same
  around owner user body s (panic, s') n u keeps = absurd u

  -- If a view of the memberships follows the GRANTs and REVOKEs of the pool on names that a role
  -- can have, the owner and the user have such names, membership queries and REVOKEs work, and
  -- failed statements change no membership, then the temporary membership in the owner leaves who
  -- is a member of whom as it was, if what runs under it does, whether that ends well, with an
  -- error or with a panic.
  pub with_membership-SameMembers :
      (owner user : String) (body : M D A) (s : Session D)
      → Names v owner user
      → ((s' : Session D) → SameMembers v s'.log (body env s').1.log)
      → SameMembers v s.log (with_membership owner user body env s).1.log
  unfolding with_membership ◌>>=◌
  with_membership-SameMembers owner user body s n keeps =
      around owner user body s (grant_role_membership pool owner user env s) n
        (grant_ends v w owner user s n) keeps
