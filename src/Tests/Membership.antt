-- ===== src/Tests/Membership.antt =====
-- Temporary memberships on the server of the tests.
use terraform_provider_postg.Base.{[], none, ◌∷◌}
use mathlib.Core.Bool.{true≢false}
use terraform_provider_postg.Tests.Quoted.{
  Whole, is_whole, grants, revokes, grants_inj, revokes_inj, grants≢revokes, beq_of_iff,
}
use terraform_provider_postg.Tests.Server.{server, is_granted, found_if}
use terraform_provider_postg.Helpers.Membership.Outcomes.{
  MembershipView, same_pair, SameMembers, Answers,
}
use terraform_provider_postg.Database.Owner.{with_membership}
use terraform_provider_postg.Database.Owner.Restores.{Works, with_membership-SameMembers}
use terraform_provider_postg.Helpers.Membership.Restore.{with_roles_granted-SameMembers}
use terraform_provider_postg.Helpers.Membership.Restore.Undoing.{Exists}
use terraform_provider_postg.Base.{
  Bool, Bool-cases, inl, inr, String, ap, eq_iff, eq_of_beq, false, if◌then◌else◌, not, refl, sym,
  true, ◌&&◌, ◌==◌, ◌||◌, ◌∙◌, ◌≡◌, ◌≢◌,
}
use terraform_provider_postg.Effect.{
  Session, begin, pure, txn, crash, pool, failed, Error, Handle, row,
}
use terraform_provider_postg.Effect.OnOk.{OnOk}
use terraform_provider_postg.Helpers.Membership.{with_roles_granted}

both : (a b : Bool) → (a && b) ≡ true → (a ≡ true) × (b ≡ true)
both true true h = (refl, refl)
both true false h = (refl, h)
both false b h = absurd (true≢false (sym h))

same_pair_path : (role mem r m : String) → same_pair role mem r m ≡ true → (role ≡ r) × (mem ≡ m)
same_pair_path role mem r m h =
    let (a, b) = both (role == r) (mem == m) h in (eq_of_beq role r a, eq_of_beq mem m b)

path_same_pair : (role mem r m : String) → role ≡ r → mem ≡ m → same_pair role mem r m ≡ true
path_same_pair role mem r m a b = rw ((eq_iff role r).1 a, (eq_iff mem m).1 b) refl

same_pair-Whole :
    (role mem r m : String) → Whole role mem → same_pair role mem r m ≡ true → Whole r m
same_pair-Whole role mem r m (wr, wm) h =
    let (a, b) = same_pair_path role mem r m h in
    (ap is_whole (sym a) ∙ wr, ap is_whole (sym b) ∙ wm)

-- The test of the server on one pair.
matched :
    (sql statement r m : String) (b : Bool)
    → (Whole r m → (sql == statement) ≡ b)
    → (b ≡ true → Whole r m)
    → ((is_whole r && is_whole m) && sql == statement) ≡ b
matched sql statement r m b eq whole = elim (Bool-cases (is_whole r && is_whole m)) [
  | inl e ↦ rw e (eq (both (is_whole r) (is_whole m) e))
  | inr e ↦ elim (Bool-cases b) [
    | inl f ↦ let w = whole f in absurd (true≢false (sym (rw (w.0, w.1) refl) ∙ e))
    | inr f ↦ rw (e, f) refl
  ]
]

grants_eq :
    (role mem r m : String)
    → Whole role mem
    → ((is_whole r && is_whole m) && grants role mem == grants r m) ≡ same_pair role mem r m
grants_eq role mem r m w =
    matched (grants role mem) (grants r m) r m (same_pair role mem r m)
      (λ w'.
        beq_of_iff (grants role mem) (grants r m) (same_pair role mem r m)
          (λ h.
            let (a, b) = same_pair_path role mem r m h in
            ap (λ x. grants x mem) a ∙ ap (λ y. grants r y) b)
          (λ h. let (a, b) = grants_inj role mem r m w w' h in path_same_pair role mem r m a b))
      (same_pair-Whole role mem r m w)

revokes_eq :
    (role mem r m : String)
    → Whole role mem
    → ((is_whole r && is_whole m) && revokes role mem == revokes r m) ≡ same_pair role mem r m
revokes_eq role mem r m w =
    matched (revokes role mem) (revokes r m) r m (same_pair role mem r m)
      (λ w'.
        beq_of_iff (revokes role mem) (revokes r m) (same_pair role mem r m)
          (λ h.
            let (a, b) = same_pair_path role mem r m h in
            ap (λ x. revokes x mem) a ∙ ap (λ y. revokes r y) b)
          (λ h. let (a, b) = revokes_inj role mem r m w w' h in path_same_pair role mem r m a b))
      (same_pair-Whole role mem r m w)

grants_ne :
    (role mem r m : String) → ((is_whole r && is_whole m) && grants role mem == revokes r m) ≡ false
grants_ne role mem r m =
    matched (grants role mem) (revokes r m) r m false
      (λ w.
        beq_of_iff (grants role mem) (revokes r m) false (λ h. absurd (true≢false (sym h)))
          (λ h. absurd (grants≢revokes role mem r m h)))
      (λ h. absurd (true≢false (sym h)))

revokes_ne :
    (role mem r m : String) → ((is_whole r && is_whole m) && revokes role mem == grants r m) ≡ false
revokes_ne role mem r m =
    matched (revokes role mem) (grants r m) r m false
      (λ w.
        beq_of_iff (revokes role mem) (grants r m) false (λ h. absurd (true≢false (sym h)))
          (λ h. absurd (grants≢revokes r m role mem (sym h))))
      (λ h. absurd (true≢false (sym h)))

or_if : (b c : Bool) → (if b then true else c) ≡ (b || c)
or_if true c = refl
or_if false c = refl

and_not_if : (b c : Bool) → (if b then false else c) ≡ (not b && c)
and_not_if true c = refl
and_not_if false c = refl

answered : (b : Bool) → Answers b (found_if b)
answered true = refl
answered false = refl

row-injective : (x y : String) → row x ≡ row y → x ≡ y
row-injective x y h = cc

view_of : (h : Handle) → MembershipView server h
view_of h = record {
  is_name = is_whole;
  user_named = λ log user h. ap is_whole (sym (row-injective "admin" user h));
  member = is_granted;
  query_keeps = λ log sql args r m. refl;
  answers = λ log r m. answered (is_granted log r m);
  grant_sets = λ log role mem r m wr wm.
      rw (grants_eq role mem r m (wr, wm), grants_ne role mem r m)
        (or_if (same_pair role mem r m) (is_granted log r m));
  revoke_clears = λ log role mem r m wr wm.
      rw (revokes_ne role mem r m, revokes_eq role mem r m (wr, wm))
        (and_not_if (same_pair role mem r m) (is_granted log r m));
}

view : MembershipView server (txn 0)
view = view_of (txn 0)

-- The statements around which the roles "a" and "b" are granted to the user "admin".
abbrev start : Session (Unit {0})
start = record { res = tt; log = begin "postgres" none ∷ [] }

has_role : (role : String) → Exists server (txn 0) role
has_role role log h = cc

keeps :
    (s : Session (Unit {0}))
    → OnOk (λ _ s'. SameMembers view s.log s'.log) (pure {D = Unit {0}} tt server s)
unfolding pure
keeps s = λ r m. refl

with_roles_granted-SameMembers_example :
    OnOk
      (λ _ s'. SameMembers view start.log s'.log)
      (with_roles_granted (txn 0) ("a" ∷ "b" ∷ []) (pure tt) server start)
unfolding view view_of
with_roles_granted-SameMembers_example =
    with_roles_granted-SameMembers view ("a" ∷ "b" ∷ []) (pure tt) start
      ((refl, has_role "a"), ((refl, has_role "b"), tt)) keeps

found_if_works : (b : Bool) (e : Error) → found_if b ≢ failed e
found_if_works true e h = cc
found_if_works false e h = cc

-- Every statement of the server succeeds, and every membership query answers.
works : Works (view_of pool)
unfolding view_of
works = record {
  failed_keeps = λ log sql args e r m. refl;
  query_works = λ log r m e. found_if_works (is_granted log r m) e;
  revoke_works = λ log role mem. refl;
}

-- The grant and the revoke around a body that ends with a panic.
crashed :
    (s : Session (Unit {0}))
    → SameMembers (view_of pool) s.log (crash {D = Unit {0}} {A = Unit {0}} server s).1.log
unfolding crash
crashed s = λ r m. refl

with_membership-SameMembers_example :
    SameMembers
      (view_of pool)
      start.log
      (with_membership "app_owner" "admin" (crash {A = Unit {0}}) server start).1.log
unfolding view_of
with_membership-SameMembers_example =
    with_membership-SameMembers (view_of pool) works "app_owner" "admin" crash start (refl, refl)
      crashed
