-- ===== src/Helpers/Membership/Outcomes.antt =====
-- What a server must do with role memberships, and what one GRANT or REVOKE of the helpers does.
use terraform_provider_postg.Base.{
  sym, ℕ, Option-cases, String, Bool, true, false, not, ◌&&◌, ◌||◌, ◌≡◌, ◌⊎◌, inl, inr, refl, List,
  [], ◌∷◌, ◌==◌, none, if◌then◌else◌, Bool-cases,
}
use terraform_provider_postg.Effect.{
  Handle, Arg, str, exec, query, Log, Env, Session, fail, Scan, no_rows, failed, row, exec_args,
  ◌>>=◌, pure, ask_server, wrap,
}
use terraform_provider_postg.Effect.OnOk.{OnOk, OnOk-bind}
use terraform_provider_postg.Effect.Reading.{found_or}
use terraform_provider_postg.Helpers.Membership.{
  membership_query, grant_text, revoke_text, is_member_of_role, grant_now, revoke_now,
  grant_role_membership, revoke_role_membership,
}

abbrev pub current_user_query : String
current_user_query = "SELECT CURRENT_USER"

abbrev pub same_pair : String → String → String → String → Bool
same_pair role member r m = role == r && member == m

-- A membership query that answers, answers by the view.
abbrev pub Answers {ℓ} : {A : Type ℓ} → Bool → Scan A → Type 0
Answers member (failed e) = Unit
Answers member (row a) = member ≡ true
Answers member no_rows = member ≡ false

-- How the memberships that transaction `h` sees depend on what was sent: queries change none, a
-- GRANT or a REVOKE that succeeds changes its own pair of role and member and no other. The last
-- holds of names only that a role can have, which the quoting and the server keep apart:
-- `pq.QuoteIdentifier` cuts a text at its first zero byte, and the server cuts one behind 63 bytes.
pub record MembershipView (env : Env) (h : Handle) : Type 0 where
  pub is_name : String → Bool
  pub user_named :
      (log : Log) (user : String)
      → env.scan_string log h current_user_query [] ≡ row user
      → is_name user ≡ true
  pub member : Log → String → String → Bool
  pub query_keeps :
      (log : Log) (sql : String) (args : List Arg) (r m : String)
      → member (query h sql args ∷ log) r m ≡ member log r m
  pub answers :
      (log : Log) (r m : String)
      → Answers (member log r m) (env.scan_nat log h membership_query (str r ∷ str m ∷ []))
  pub grant_sets :
      (log : Log) (role mem r m : String)
      → is_name role ≡ true
      → is_name mem ≡ true
      → member (exec h (grant_text env role mem) [] none ∷ log) r m
        ≡ (same_pair role mem r m || member log r m)
  pub revoke_clears :
      (log : Log) (role mem r m : String)
      → is_name role ≡ true
      → is_name mem ≡ true
      → member (exec h (revoke_text env role mem) [] none ∷ log) r m
        ≡ (not (same_pair role mem r m) && member log r m)

module _ {env : Env} {h : Handle} (v : MembershipView env h) where
  abbrev pub Names : String → String → Type 0
  Names role mem = (v.is_name role ≡ true) × (v.is_name mem ≡ true)

  abbrev pub SameMembers : Log → Log → Type 0
  SameMembers log log' = (r m : String) → v.member log' r m ≡ v.member log r m

module _ {D : Type 0} {env : Env} {h : Handle} (v : MembershipView env h) where
  -- What holds after `grantRoleMembership` and `revokeRoleMembership` return.
  abbrev pub Granted : String → String → Session D → Bool → Session D → Type 0
  Granted role mem s true s' =
      ((mem == role) ≡ false)
      × (v.member s.log role mem ≡ false)
      × ((r m : String) → v.member s'.log r m ≡ (same_pair role mem r m || v.member s.log r m))
  Granted role mem s false s' =
      (((mem == role) ≡ true) ⊎ (v.member s.log role mem ≡ true)) × SameMembers v s.log s'.log

  abbrev pub Revoked : String → String → Session D → Bool → Session D → Type 0
  Revoked role mem s true s' =
      ((mem == role) ≡ false)
      × (v.member s.log role mem ≡ true)
      × ((r m : String)
          → v.member s'.log r m ≡ (not (same_pair role mem r m) && v.member s.log r m))
  Revoked role mem s false s' =
      (((mem == role) ≡ true) ⊎ (v.member s.log role mem ≡ false)) × SameMembers v s.log s'.log

  found_OnOk :
      (b : Bool) (msg : String) (o : Scan ℕ) (s s' : Session D)
      → SameMembers v s.log s'.log
      → Answers b o
      → OnOk (λ b' s''. (b' ≡ b) × SameMembers v s.log s''.log) (found_or msg o env s')
  unfolding pure fail
  found_OnOk b msg no_rows s s' same a = (sym a, same)
  found_OnOk b msg (failed e) s s' same a = tt
  found_OnOk b msg (row _) s s' same a = (sym a, same)

  is_member_OnOk :
      (role mem : String) (s : Session D)
      → OnOk
          (λ b s'. (b ≡ v.member s.log role mem) × SameMembers v s.log s'.log)
          (is_member_of_role h role mem env s)
  unfolding is_member_of_role ask_server
  is_member_OnOk role mem s =
      found_OnOk (v.member s.log role mem) _
        (env.scan_nat s.log h membership_query (str role ∷ str mem ∷ [])) s _
        (λ r m. v.query_keeps s.log _ _ r m) (v.answers s.log role mem)

  grant_now-OnOk :
      (role mem : String) (s s' : Session D)
      → Names v role mem
      → (mem == role) ≡ false
      → v.member s.log role mem ≡ false
      → SameMembers v s.log s'.log
      → OnOk (Granted role mem s) (grant_now h role mem env s')
  unfolding grant_now exec_args wrap ◌>>=◌
  grant_now-OnOk role mem s s' n ne known same =
      elim (Option-cases (env.exec_error s'.log h (grant_text env role mem) [])) [
        | inl e ↦ rw e (ne, known, λ r m. rw (v.grant_sets s'.log role mem r m n.0 n.1, same r m))
        | inr (x, e) ↦ rw e tt
      ]

  grant_unless_OnOk :
      (role mem : String) (s s' : Session D) (b : Bool)
      → Names v role mem
      → (mem == role) ≡ false
      → b ≡ v.member s.log role mem
      → SameMembers v s.log s'.log
      → OnOk (Granted role mem s) ((if b then pure false else grant_now h role mem) env s')
  unfolding pure
  grant_unless_OnOk role mem s s' true n ne known same = (inr (sym known), same)
  grant_unless_OnOk role mem s s' false n ne known same =
      grant_now-OnOk role mem s s' n ne (sym known) same

  pub grant_OnOk :
      (role mem : String) (s : Session D)
      → Names v role mem
      → OnOk (Granted role mem s) (grant_role_membership h role mem env s)
  unfolding grant_role_membership pure
  grant_OnOk role mem s n = elim (Bool-cases (mem == role)) [
    | inl e ↦ rw e (inl e, λ r m. refl)
    | inr e ↦ rw e (
        OnOk-bind (Granted role mem s)
          (λ b s'. (b ≡ v.member s.log role mem) × SameMembers v s.log s'.log)
          (is_member_of_role h role mem) (λ b. if b then pure false else grant_now h role mem) env s
          (is_member_OnOk role mem s) λ b s' q. grant_unless_OnOk role mem s s' b n e q.0 q.1)
  ]

  revoke_now-OnOk :
      (role mem : String) (s s' : Session D)
      → Names v role mem
      → (mem == role) ≡ false
      → v.member s.log role mem ≡ true
      → SameMembers v s.log s'.log
      → OnOk (Revoked role mem s) (revoke_now h role mem env s')
  unfolding revoke_now exec_args wrap ◌>>=◌
  revoke_now-OnOk role mem s s' n ne known same =
      elim (Option-cases (env.exec_error s'.log h (revoke_text env role mem) [])) [
        | inl e ↦
            rw e (ne, known, λ r m. rw (v.revoke_clears s'.log role mem r m n.0 n.1, same r m))
        | inr (x, e) ↦ rw e tt
      ]

  revoke_unless_OnOk :
      (role mem : String) (s s' : Session D) (b : Bool)
      → Names v role mem
      → (mem == role) ≡ false
      → b ≡ v.member s.log role mem
      → SameMembers v s.log s'.log
      → OnOk (Revoked role mem s) ((if not b then pure false else revoke_now h role mem) env s')
  unfolding pure
  revoke_unless_OnOk role mem s s' true n ne known same =
      revoke_now-OnOk role mem s s' n ne (sym known) same
  revoke_unless_OnOk role mem s s' false n ne known same = (inr (sym known), same)

  pub revoke_OnOk :
      (role mem : String) (s : Session D)
      → Names v role mem
      → OnOk (Revoked role mem s) (revoke_role_membership h role mem env s)
  unfolding revoke_role_membership pure
  revoke_OnOk role mem s n = elim (Bool-cases (mem == role)) [
    | inl e ↦ rw e (inl e, λ r m. refl)
    | inr e ↦ rw e (
        OnOk-bind (Revoked role mem s)
          (λ b s'. (b ≡ v.member s.log role mem) × SameMembers v s.log s'.log)
          (is_member_of_role h role mem) (λ b. if not b then pure false else revoke_now h role mem)
          env s (is_member_OnOk role mem s)
          λ b s' q. revoke_unless_OnOk role mem s s' b n e q.0 q.1)
  ]
