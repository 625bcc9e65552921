-- ===== src/Helpers/Membership/Restore.antt =====
-- What a run of `withRolesGranted` in postgresql/helpers.go does to the memberships.
pub mod Undoing
use Undoing.{
  Exists, Known, Undo, undone, revoke-Undo, grant-Undo, Undo-same, Cleared, Cleared-cons, Given,
  Given-cons, Gives, Granted-Gives, lacks_tail, Undo-done, Undo-start,
}
use terraform_provider_postg.Base.{
  String, Bool, true, false, not, ◌&&◌, ◌||◌, ◌≡◌, ◌≢◌, inl, inr, refl, sym, ◌∙◌, List, [], ◌∷◌,
  ◌==◌, eq_iff, arith, if◌then◌else◌, All, Option-cases, Bool-cases,
}
use terraform_provider_postg.Effect.{
  Result, ok, err, panic, Error, Handle, str, Arg, Env, Session, Scan, no_rows, failed, row, Log, M,
  pure, fail, ◌>>=◌, ◌>>◌, ask_server,
}
use terraform_provider_postg.Effect.Reading.{found_or, row_or}
use terraform_provider_postg.Effect.OnOk.{OnOk-if, OnOk, OnOk-weaken, OnOk-bind}
use terraform_provider_postg.Helpers.Catalog.{get_current_user, is_superuser, role_exists}
use terraform_provider_postg.Helpers.Privileges.{slice_contains_str}
use terraform_provider_postg.Helpers.Membership.{
  append_if, grant_step, grant_loop, grant_around, undo_granted, undo_revoked, regrant,
  with_roles_granted, grant_role_membership, revoke_role_membership,
}
use terraform_provider_postg.Helpers.Membership.Outcomes.{
  MembershipView, SameMembers, current_user_query, Granted, Revoked, grant_OnOk, revoke_OnOk,
}

module _ {D : Type 0} {env : Env} {h : Handle} (v : MembershipView env h) where
  row_or-OnOk :
      {A : Type 0} (missing : Error) (msg : String) (o : Scan A) (s s' : Session D)
      → SameMembers v s.log s'.log
      → OnOk (λ _ s''. SameMembers v s.log s''.log) (row_or missing msg o env s')
  unfolding pure fail
  row_or-OnOk missing msg no_rows s s' same = tt
  row_or-OnOk missing msg (failed e) s s' same = tt
  row_or-OnOk missing msg (row a) s s' same = same

  is_superuser-OnOk :
      (role : String) (s : Session D)
      → OnOk (λ _ s'. SameMembers v s.log s'.log) (is_superuser h role env s)
  unfolding is_superuser ask_server
  is_superuser-OnOk role s =
      row_or-OnOk _ _ (env.scan_bool s.log h _ _) s _ (λ r m. v.query_keeps s.log _ _ r m)

  named_row_OnOk :
      (missing : Error) (msg : String) (o : Scan String) (s s' : Session D)
      → ((user : String) → o ≡ row user → v.is_name user ≡ true)
      → SameMembers v s.log s'.log
      → OnOk
          (λ user s''. (v.is_name user ≡ true) × SameMembers v s.log s''.log)
          (row_or missing msg o env s')
  unfolding pure fail
  named_row_OnOk missing msg no_rows s s' named same = tt
  named_row_OnOk missing msg (failed e) s s' named same = tt
  named_row_OnOk missing msg (row user) s s' named same = (named user refl, same)

  get_current_user-OnOk :
      (s : Session D)
      → OnOk
          (λ user s'. (v.is_name user ≡ true) × SameMembers v s.log s'.log)
          (get_current_user h env s)
  unfolding get_current_user ask_server
  get_current_user-OnOk s =
      named_row_OnOk _ _ (env.scan_string s.log h current_user_query []) s _
        (λ user e. v.user_named s.log user e) (λ r m. v.query_keeps s.log _ _ r m)

  found_row_OnOk :
      (msg : String) (o : Scan String) (s s' : Session D)
      → o ≢ no_rows
      → SameMembers v s.log s'.log
      → OnOk (λ b s''. (b ≡ true) × SameMembers v s.log s''.log) (found_or msg o env s')
  unfolding pure fail
  found_row_OnOk msg no_rows s s' there same = absurd (there refl)
  found_row_OnOk msg (failed e) s s' there same = tt
  found_row_OnOk msg (row a) s s' there same = (refl, same)

  -- a role of the catalog is found
  role_exists-OnOk :
      (role : String) (s : Session D)
      → Exists env h role
      → OnOk (λ b s'. (b ≡ true) × SameMembers v s.log s'.log) (role_exists h role env s)
  unfolding role_exists ask_server
  role_exists-OnOk role s ex =
      found_row_OnOk _ (env.scan_string s.log h _ _) s _ (ex s.log)
        (λ r m. v.query_keeps s.log _ _ r m)

module _ {D : Type 0} {env : Env} {h : Handle} (v : MembershipView env h) (user : String)
    (named : v.is_name user ≡ true) (start : Log) where
  abbrev Tracks : List String × List String → Session D → Type 0
  Tracks done s = Undo v user start done.0 done.1 s.log

  grant_step-OnOk :
      (role : String) (g rv : List String) (s : Session D)
      → Known v role
      → Undo v user start g rv s.log
      → OnOk Tracks (grant_step h user role g rv env s)
  unfolding grant_step pure
  grant_step-OnOk role g rv s ex u =
      OnOk-bind Tracks (λ _ s'. SameMembers v s.log s'.log) (is_superuser h role) _ env s
        (is_superuser-OnOk v role s)
        λ super s' same. after_test super s' (Undo-same v user start g rv s.log s'.log u same)
    where
      rest : M D (List String × List String)
      rest = revoke_role_membership h user role >>= λ was_revoked.
          grant_role_membership h role user >>= λ was_granted.
          pure (append_if was_granted g role, append_if was_revoked rv role)

      after_test :
          (super : Bool) (s' : Session D)
          → Undo v user start g rv s'.log
          → OnOk Tracks ((if super then pure (g, rv) else rest) env s')
      after_test true s' u' = u'
      after_test false s' u' =
          OnOk-bind Tracks (Revoked v user role s') (revoke_role_membership h user role) _ env s'
            (revoke_OnOk v user role s' (named, ex.0))
            λ b s1 q1.
              OnOk-bind Tracks (Granted v role user s1) (grant_role_membership h role user) _ env s1
                (grant_OnOk v role user s1 (ex.0, named))
                λ c s2 q2.
                  grant-Undo v user start g (append_if b rv role) role c s1 s2
                    (revoke-Undo v user start g rv role b s' s1 u' ex q1) ex.0 q2

  grant_loop-OnOk :
      (roles g rv : List String) (s : Session D)
      → All (Known v) roles
      → Undo v user start g rv s.log
      → OnOk Tracks (grant_loop h user roles g rv env s)
  unfolding grant_loop pure
  grant_loop-OnOk [] g rv s ex u = u
  grant_loop-OnOk (role ∷ roles) g rv s (ex, exs) u =
      OnOk-bind Tracks Tracks (grant_step h user role g rv) _ env s
        (grant_step-OnOk role g rv s ex u)
        λ done s' u'. grant_loop-OnOk roles done.0 done.1 s' exs u'

module _ {D : Type 0} {env : Env} {h : Handle} (v : MembershipView env h) (user : String)
    (named : v.is_name user ≡ true) where
  undo_granted-OnOk :
      (g : List String) (s : Session D)
      → All (λ role. v.is_name role ≡ true) g
      → slice_contains_str g user ≡ false
      → OnOk (λ _ s'. Cleared v user g s.log s'.log) (undo_granted h user g env s)
  unfolding undo_granted pure slice_contains_str
  undo_granted-OnOk [] s ns lacks = λ r m. refl
  undo_granted-OnOk (role ∷ g) s (nr, ns) lacks =
      let (tail, ne) = lacks_tail v user role g lacks in
      OnOk-bind (λ _ s'. Cleared v user (role ∷ g) s.log s'.log) (Revoked v role user s)
        (revoke_role_membership h role user) _ env s (revoke_OnOk v role user s (nr, named))
        λ b s' q.
          OnOk-weaken (λ _ s''. Cleared v user (role ∷ g) s.log s''.log)
            (λ _ s''. Cleared v user g s'.log s''.log) (undo_granted h user g env s')
            (λ _ s'' k. Cleared-cons v user role g b s s' s''.log ne q k)
            (undo_granted-OnOk g s' ns tail)

  regrant-OnOk :
      (role : String) (s : Session D)
      → Known v role
      → (role == user) ≡ false
      → OnOk (λ _ s'. Gives v user role s.log s'.log) (regrant h user role env s)
  unfolding regrant pure
  regrant-OnOk role s ex ne =
      OnOk-bind (λ _ s'. Gives v user role s.log s'.log)
        (λ b s'. (b ≡ true) × SameMembers v s.log s'.log) (role_exists h role) _ env s
        (role_exists-OnOk v role s ex.1)
        λ b s1 q. rw (q.0) (
          OnOk-bind (λ _ s'. Gives v user role s.log s'.log) (Granted v user role s1)
            (grant_role_membership h user role) _ env s1 (grant_OnOk v user role s1 (named, ex.0))
            λ c s2 k r m. rw (Granted-Gives v user role c s1 s2 ne k r m) (rw q.1 refl))

  undo_revoked-OnOk :
      (rv : List String) (s : Session D)
      → All (Known v) rv
      → slice_contains_str rv user ≡ false
      → OnOk (λ _ s'. Given v user rv s.log s'.log) (undo_revoked h user rv env s)
  unfolding undo_revoked pure slice_contains_str
  undo_revoked-OnOk [] s ex lacks = λ r m. ground arith
  undo_revoked-OnOk (role ∷ rv) s (ex, exs) lacks =
      let (tail, ne) = lacks_tail v user role rv lacks in
      OnOk-bind (λ _ s'. Given v user (role ∷ rv) s.log s'.log)
        (λ _ s'. Gives v user role s.log s'.log) (regrant h user role) _ env s
        (regrant-OnOk role s ex ne)
        λ b s' q.
          OnOk-weaken (λ _ s''. Given v user (role ∷ rv) s.log s''.log)
            (λ _ s''. Given v user rv s'.log s''.log) (undo_revoked h user rv env s')
            (λ _ s'' k. Given-cons v user role rv s.log s'.log s''.log q k)
            (undo_revoked-OnOk rv s' exs tail)

module _ {D : Type 0} {env : Env} {h : Handle} (v : MembershipView env h) where
  abbrev Restores : Log → M D (Unit {0}) → Type 0
  Restores start m =
      (s : Session D)
      → SameMembers v start s.log
      → OnOk (λ _ s'. SameMembers v start s'.log) (m env s)

  grant_around-Restores :
      (user : String) (roles : List String) (fn : M D (Unit {0})) (start : Log)
      → v.is_name user ≡ true
      → All (Known v) roles
      → ((s' : Session D) → OnOk (λ _ s''. SameMembers v s'.log s''.log) (fn env s'))
      → Restores start (grant_around h user roles fn)
  unfolding grant_around
  grant_around-Restores user roles fn start named ex keeps s same =
      OnOk-bind (λ _ s'. SameMembers v start s'.log) (Tracks v user named start)
        (grant_loop h user roles [] []) _ env s
        (grant_loop-OnOk v user named start roles [] [] s ex (Undo-start v user start s.log same))
        λ done s1 u1.
          OnOk-bind (λ _ s'. SameMembers v start s'.log)
            (λ _ s2. Undo v user start done.0 done.1 s2.log) fn _ env s1
            (OnOk-weaken _ _ (fn env s1)
              (λ _ s2 k. Undo-same v user start done.0 done.1 s1.log s2.log u1 k) (keeps s1))
            λ _ s2 u2.
              OnOk-bind (λ _ s'. SameMembers v start s'.log)
                (λ _ s3. Cleared v user done.0 s2.log s3.log) (undo_granted h user done.0) _ env s2
                (undo_granted-OnOk v user named done.0 s2 u2.named u2.lacks_granted)
                λ _ s3 c.
                  OnOk-weaken _ _ (undo_revoked h user done.1 env s3)
                    (λ _ s4 k. Undo-done v user start done.0 done.1 s2.log s3.log s4.log u2 c k)
                    (undo_revoked-OnOk v user named done.1 s3 u2.exist u2.lacks_revoked)

  -- If a view of the memberships follows the GRANTs and REVOKEs of one handle on names that a role
  -- can have, the current user has such a name, every role that is asked for has such a name and
  -- exists in the catalog whatever was sent, and the wrapped function leaves the memberships alone
  -- whenever it returns no error, then, when `withRolesGranted` on that handle returns no error,
  -- who is a member of whom is the same as before.
  pub with_roles_granted-SameMembers :
      (roles : List String) (fn : M D (Unit {0})) (s : Session D)
      → All (Known v) roles
      → ((s' : Session D) → OnOk (λ _ s''. SameMembers v s'.log s''.log) (fn env s'))
      → OnOk (λ _ s'. SameMembers v s.log s'.log) (with_roles_granted h roles fn env s)
  unfolding with_roles_granted
  with_roles_granted-SameMembers [] fn s ex keeps = keeps s
  with_roles_granted-SameMembers (first ∷ roles) fn s ex keeps =
      OnOk-bind (λ _ s'. SameMembers v s.log s'.log)
        (λ user s'. (v.is_name user ≡ true) × SameMembers v s.log s'.log) (get_current_user h) _ env
        s (get_current_user-OnOk v s)
        λ user s1 (named, q1).
          OnOk-bind (λ _ s'. SameMembers v s.log s'.log) (λ _ s'. SameMembers v s1.log s'.log)
            (is_superuser h user) _ env s1 (is_superuser-OnOk v user s1)
            λ super s2 q2.
              let same : SameMembers v s.log s2.log = λ r m. q2 r m ∙ q1 r m in
              OnOk-if (λ _ s'. SameMembers v s.log s'.log) super fn
                (grant_around h user (first ∷ roles) fn) env s2
                (OnOk-weaken _ _ (fn env s2) (λ _ s3 k r m. k r m ∙ same r m) (keeps s2))
                (grant_around-Restores user (first ∷ roles) fn s.log named ex keeps s2 same)
