-- ===== src/Helpers/Membership/Restore/Undoing.antt =====
-- What undoing the grants and revokes of `withRolesGranted` would give back.
use mathlib.Core.List.{◌++◌}
use terraform_provider_postg.Base.{
  refl, inr, inl, not, String, Bool, true, false, ◌&&◌, ◌||◌, ◌≡◌, ◌≢◌, List, [], ◌∷◌, ◌==◌, eq_iff,
  arith, if◌then◌else◌, All,
}
use terraform_provider_postg.Effect.{Handle, str, Env, Session, no_rows, Log}
use terraform_provider_postg.Helpers.Privileges.{slice_contains_str}
use terraform_provider_postg.Helpers.Membership.{append_if}
use terraform_provider_postg.Helpers.Membership.Outcomes.{
  SameMembers, same_pair, MembershipView, Granted, Revoked,
}

pub contains-append :
    (xs : List String) (x y : String)
    → slice_contains_str (xs ++ x ∷ []) y ≡ (slice_contains_str xs y || x == y)
unfolding slice_contains_str
contains-append [] x y = ground arith
contains-append (z ∷ xs) x y = ground (arith, contains-append xs x y)

pub All-concat {ℓ κ} :
    {A : Type ℓ} (P : A → Type κ) (xs : List A) {x : A} → All P xs → P x → All P (xs ++ x ∷ [])
All-concat P [] h p = (p, tt)
All-concat P (y ∷ xs) (q, h) p = (q, All-concat P xs h p)

-- The membership of `r` that `m` has once the granted roles are revoked from `user` and `user` is
-- granted back to the roles that it was revoked from.
abbrev pub undone :
    String → List String → List String → (String → String → Bool) → String → String → Bool
undone user granted revoked member r m =
    if user == m && slice_contains_str granted r
    then false
    else if user == r && slice_contains_str revoked m
    then true
    else member r m

-- The catalog has the role, whatever was sent before.
abbrev pub Exists : Env → Handle → String → Type 0
Exists env h role =
    (log : Log)
    → env.scan_string log h "SELECT 1 FROM pg_roles WHERE rolname=$1" (str role ∷ []) ≢ no_rows

-- A name that a role can have, of a role that the catalog has.
abbrev pub Known : {env : Env} {h : Handle} → MembershipView env h → String → Type 0
Known {env} {h} v role = (v.is_name role ≡ true) × Exists env h role

module _ {env : Env} {h : Handle} (v : MembershipView env h) (user : String) where
  -- Undoing at `now` gives the memberships of the log `start`.
  pub record Undo (start : Log) (granted revoked : List String) (now : Log) : Type 0 where
    pub lacks_granted : slice_contains_str granted user ≡ false
    pub lacks_revoked : slice_contains_str revoked user ≡ false
    pub named : All (λ role. v.is_name role ≡ true) granted
    pub exist : All (Known v) revoked
    pub undo : (r m : String) → v.member start r m ≡ undone user granted revoked (v.member now) r m

module _ {D : Type 0} {env : Env} {h : Handle} (v : MembershipView env h) (user : String) where
  pub revoke-Undo :
      (start : Log) (g rv : List String) (role : String) (b : Bool) (s s' : Session D)
      → Undo v user start g rv s.log
      → Known v role
      → Revoked v user role s b s'
      → Undo v user start g (append_if b rv role) s'.log
  revoke-Undo start g rv role true s s' u ex (ne, was, now) = record {
    lacks_granted = u.lacks_granted;
    lacks_revoked = ground (arith, contains-append rv role user, u.lacks_revoked);
    named = u.named;
    exist = All-concat (Known v) rv u.exist ex;
    undo = λ r m. ground (
      arith,
      u.undo r m,
      contains-append rv role m,
      now r m,
      eq_iff user r,
      eq_iff role m,
      eq_iff user m,
      eq_iff role user,
    );
  }
  revoke-Undo start g rv role false s s' u ex (_, same) = record {
    lacks_granted = u.lacks_granted;
    lacks_revoked = u.lacks_revoked;
    named = u.named;
    exist = u.exist;
    undo = λ r m. rw same (u.undo r m);
  }

  pub grant-Undo :
      (start : Log) (g rv : List String) (role : String) (b : Bool) (s s' : Session D)
      → Undo v user start g rv s.log
      → v.is_name role ≡ true
      → Granted v role user s b s'
      → Undo v user start (append_if b g role) rv s'.log
  grant-Undo start g rv role true s s' u nr (ne, was, now) = record {
    lacks_granted =
        ground
          (arith, contains-append g role user, u.lacks_granted, eq_iff user role, eq_iff role user);
    lacks_revoked = u.lacks_revoked;
    named = All-concat (λ r. v.is_name r ≡ true) g u.named nr;
    exist = u.exist;
    undo = λ r m. ground (
      arith,
      u.undo r m,
      contains-append g role r,
      now r m,
      eq_iff user r,
      eq_iff role r,
      eq_iff user m,
      eq_iff user role,
    );
  }
  grant-Undo start g rv role false s s' u nr (_, same) = record {
    lacks_granted = u.lacks_granted;
    lacks_revoked = u.lacks_revoked;
    named = u.named;
    exist = u.exist;
    undo = λ r m. rw same (u.undo r m);
  }

module _ {env : Env} {h : Handle} (v : MembershipView env h) (user : String) where
  pub Undo-same :
      (start : Log) (g rv : List String) (log log' : Log)
      → Undo v user start g rv log
      → SameMembers v log log'
      → Undo v user start g rv log'
  Undo-same start g rv log log' u same = record {
    lacks_granted = u.lacks_granted;
    lacks_revoked = u.lacks_revoked;
    named = u.named;
    exist = u.exist;
    undo = λ r m. rw same (u.undo r m);
  }

  -- Nothing is to be undone yet.
  pub Undo-start : (start log : Log) → SameMembers v start log → Undo v user start [] [] log
  unfolding slice_contains_str
  Undo-start start log same = record {
    lacks_granted = refl;
    lacks_revoked = refl;
    named = tt;
    exist = tt;
    undo = λ r m. ground (arith, same r m);
  }

  -- The user is in none of the granted roles any more, and nothing else has changed.
  abbrev pub Cleared : List String → Log → Log → Type 0
  Cleared g log log' =
      (r m : String)
      → v.member log' r m ≡ (not (slice_contains_str g r && user == m) && v.member log r m)

  -- The user is in the revoked roles again, and nothing else has changed.
  abbrev pub Given : List String → Log → Log → Type 0
  Given rv log log' =
      (r m : String)
      → v.member log' r m ≡ ((user == r && slice_contains_str rv m) || v.member log r m)

  -- The same for one role.
  abbrev pub Gives : String → Log → Log → Type 0
  Gives role log log' =
      (r m : String) → v.member log' r m ≡ (same_pair user role r m || v.member log r m)

  pub Given-cons :
      (role : String) (rv : List String) (log log1 log2 : Log)
      → Gives role log log1
      → Given rv log1 log2
      → Given (role ∷ rv) log log2
  unfolding slice_contains_str
  Given-cons role rv log log1 log2 g k r m = ground (arith, k r m, g r m)

  -- The state after undoing everything is the one at the start.
  pub Undo-done :
      (start : Log) (g rv : List String) (log log1 log2 : Log)
      → Undo v user start g rv log
      → Cleared g log log1
      → Given rv log1 log2
      → SameMembers v start log2
  Undo-done start g rv log log1 log2 u c k r m = ground (
    arith,
    u.undo r m,
    c r m,
    k r m,
    u.lacks_granted,
    u.lacks_revoked,
    eq_iff user r,
    eq_iff user m,
  )

  pub lacks_tail :
      (role : String) (g : List String)
      → slice_contains_str (role ∷ g) user ≡ false
      → (slice_contains_str g user ≡ false) × ((role == user) ≡ false)
  unfolding slice_contains_str
  lacks_tail role g lacks = (ground arith, ground arith)

module _ {D : Type 0} {env : Env} {h : Handle} (v : MembershipView env h) (user : String) where
  pub Cleared-cons :
      (role : String) (g : List String) (b : Bool) (s s' : Session D) (log : Log)
      → (role == user) ≡ false
      → Revoked v role user s b s'
      → Cleared v user g s'.log log
      → Cleared v user (role ∷ g) s.log log
  unfolding slice_contains_str
  Cleared-cons role g true s s' log lacks (ne, was, now) k r m =
      ground (arith, k r m, now r m, eq_iff role r, eq_iff user m)
  Cleared-cons role g false s s' log lacks (inl e, same) k r m =
      ground (arith, eq_iff user role, eq_iff role user)
  Cleared-cons role g false s s' log lacks (inr e, same) k r m =
      ground (arith, k r m, same r m, eq_iff role r, eq_iff user m)

  pub Granted-Gives :
      (role : String) (b : Bool) (s s' : Session D)
      → (role == user) ≡ false
      → Granted v user role s b s'
      → Gives v user role s.log s'.log
  Granted-Gives role true s s' lacks (ne, was, now) r m = now r m
  Granted-Gives role false s s' lacks (inl e, same) r m = cc
  Granted-Gives role false s s' lacks (inr e, same) r m =
      ground (arith, same r m, eq_iff role m, eq_iff user r)
