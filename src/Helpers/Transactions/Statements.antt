-- ===== src/Helpers/Transactions/Statements.antt =====
-- Programs that only send statements and queries inside one transaction: the catalog queries, the
-- locks and the temporary memberships of postgresql/helpers.go are such programs.
use terraform_provider_postg.Base.{List, String, [], false, true, ℕ, ◌∷◌, ◌≡◌, refl}
use terraform_provider_postg.Effect.{
  M, Rows, refused, rows, Arg, Cell, Env, Error, Event, Handle, Log, Scan, ask_server, begin,
  commit, exec, exec_args, failed, no_rows, pool, pure, query, rollback, row, txn, unread, value,
  wrapped,
}
use terraform_provider_postg.Effect.Emits.{
  Emits-if, Emits-crash, emits_rules, Emits, Emits-ask_server, Emits-bind, Emits-exec_args,
  Emits-fail, Emits-pure,
}
use terraform_provider_postg.Effect.Reading.{collect, found_or, row_or}
use terraform_provider_postg.Helpers.Catalog.{
  db_exists, get_current_user, get_database_owner, get_role_oid, get_schema_owner, get_tables_owner,
  owners_of, schema_exists, is_superuser, pg_lock_role, role_exists,
}
use terraform_provider_postg.Helpers.Membership.{
  grant_around, grant_loop, grant_now, grant_role_membership, grant_step, is_member_of_role,
  regrant, revoke_now, revoke_role_membership, undo_granted, undo_revoked, with_roles_granted,
}

abbrev pub IsTxn : ℕ → Handle → Type 0
IsTxn t pool = ⊥
IsTxn t (txn u) = u ≡ t

-- A statement or a query on transaction `t`.
abbrev pub OnTxn : ℕ → Event → Type 0
OnTxn t (begin _ _) = ⊥
OnTxn t (exec h _ _ _) = IsTxn t h
OnTxn t (query h _ _) = IsTxn t h
OnTxn t (commit _ _) = ⊥
OnTxn t (rollback _) = ⊥

module _ {D : Type 0} (t : ℕ) where
  pub exec-OnTxn :
      (sql : String) (args : List Arg) → Emits (OnTxn t) (exec_args {D = D} (txn t) sql args)
  exec-OnTxn sql args = Emits-exec_args (txn t) sql args (λ o. refl)

module _ {D A : Type 0} (t : ℕ) where
  pub query-OnTxn :
      (answer : Env → Log → Handle → String → List Arg → A) (sql : String) (args : List Arg)
      → Emits (OnTxn t) (ask_server {D = D} answer (txn t) sql args)
  query-OnTxn answer sql args = Emits-ask_server answer (txn t) sql args refl

  pub found_or-OnTxn : (msg : String) (o : Scan A) → Emits (OnTxn t) (found_or {D = D} msg o)
  found_or-OnTxn msg no_rows = Emits-pure false
  found_or-OnTxn msg (failed e) = Emits-fail (wrapped msg e)
  found_or-OnTxn msg (row a) = Emits-pure true

  pub row_or-OnTxn :
      (missing : Error) (msg : String) (o : Scan A) → Emits (OnTxn t) (row_or {D = D} missing msg o)
  row_or-OnTxn missing msg no_rows = Emits-fail missing
  row_or-OnTxn missing msg (failed e) = Emits-fail (wrapped msg e)
  row_or-OnTxn missing msg (row a) = Emits-pure a

  pub collect-OnTxn :
      (msg : String) (cells : List (Cell A)) → Emits (OnTxn t) (collect {D = D} msg cells)
  unfolding collect
  collect-OnTxn msg [] = Emits-pure []
  collect-OnTxn msg (unread e ∷ cells) = Emits-fail (wrapped msg e)
  collect-OnTxn msg (value a ∷ cells) =
      Emits-bind (collect msg cells) (λ rest. pure (a ∷ rest)) (collect-OnTxn msg cells)
        λ rest. Emits-pure (a ∷ rest)

pub ruleset txn_rules =
    (emits_rules, exec-OnTxn, query-OnTxn, found_or-OnTxn, row_or-OnTxn, collect-OnTxn)

module _ {D : Type 0} (t : ℕ) where
  pub role_exists-OnTxn : (role : String) → Emits (OnTxn t) (role_exists {D = D} (txn t) role)
  unfolding role_exists
  role_exists-OnTxn role = search txn_rules

  pub is_superuser-OnTxn : (role : String) → Emits (OnTxn t) (is_superuser {D = D} (txn t) role)
  unfolding is_superuser
  is_superuser-OnTxn role = search txn_rules

  pub pg_lock_role-OnTxn : (role : String) → Emits (OnTxn t) (pg_lock_role {D = D} (txn t) role)
  unfolding pg_lock_role
  pg_lock_role-OnTxn role = search txn_rules

  pub get_current_user-OnTxn : Emits (OnTxn t) (get_current_user {D = D} (txn t))
  unfolding get_current_user
  get_current_user-OnTxn = search txn_rules

  pub get_database_owner-OnTxn :
      (database : String) → Emits (OnTxn t) (get_database_owner {D = D} (txn t) database)
  unfolding get_database_owner
  get_database_owner-OnTxn database = search txn_rules

  pub get_schema_owner-OnTxn :
      (schema : String) → Emits (OnTxn t) (get_schema_owner {D = D} (txn t) schema)
  unfolding get_schema_owner
  get_schema_owner-OnTxn schema = search txn_rules

  pub schema_exists-OnTxn :
      (schema : String) → Emits (OnTxn t) (schema_exists {D = D} (txn t) schema)
  unfolding schema_exists
  schema_exists-OnTxn schema = search txn_rules

  pub db_exists-OnTxn : (database : String) → Emits (OnTxn t) (db_exists {D = D} (txn t) database)
  unfolding db_exists
  db_exists-OnTxn database = search txn_rules

  pub get_role_oid-OnTxn : (role : String) → Emits (OnTxn t) (get_role_oid {D = D} (txn t) role)
  unfolding get_role_oid
  get_role_oid-OnTxn role = search txn_rules

  owners_of-OnTxn : (r : Rows String) → Emits (OnTxn t) (owners_of {D = D} r)
  unfolding owners_of
  owners_of-OnTxn (refused e) = Emits-crash
  owners_of-OnTxn (rows cells) = collect-OnTxn t "could not scan tables owner" cells

  pub get_tables_owner-OnTxn :
      (schema : String) → Emits (OnTxn t) (get_tables_owner {D = D} (txn t) schema)
  unfolding get_tables_owner
  get_tables_owner-OnTxn schema = search (txn_rules, owners_of-OnTxn)

  is_member_of_role-OnTxn :
      (role member : String) → Emits (OnTxn t) (is_member_of_role {D = D} (txn t) role member)
  unfolding is_member_of_role
  is_member_of_role-OnTxn role member = search txn_rules

  grant_now-OnTxn : (role member : String) → Emits (OnTxn t) (grant_now {D = D} (txn t) role member)
  unfolding grant_now
  grant_now-OnTxn role member = search txn_rules

  revoke_now-OnTxn :
      (role member : String) → Emits (OnTxn t) (revoke_now {D = D} (txn t) role member)
  unfolding revoke_now
  revoke_now-OnTxn role member = search txn_rules

  pub grant_role_membership-OnTxn :
      (role member : String) → Emits (OnTxn t) (grant_role_membership {D = D} (txn t) role member)
  unfolding grant_role_membership
  grant_role_membership-OnTxn role member =
      search (txn_rules, is_member_of_role-OnTxn, grant_now-OnTxn) depth 8

  pub revoke_role_membership-OnTxn :
      (role member : String) → Emits (OnTxn t) (revoke_role_membership {D = D} (txn t) role member)
  unfolding revoke_role_membership
  revoke_role_membership-OnTxn role member =
      search (txn_rules, is_member_of_role-OnTxn, revoke_now-OnTxn) depth 8

  grant_step-OnTxn :
      (user role : String) (g rv : List String)
      → Emits (OnTxn t) (grant_step {D = D} (txn t) user role g rv)
  unfolding grant_step
  grant_step-OnTxn user role g rv =
      search
        (txn_rules, is_superuser-OnTxn, grant_role_membership-OnTxn, revoke_role_membership-OnTxn)
        depth 8

  grant_loop-OnTxn :
      (user : String) (roles g rv : List String)
      → Emits (OnTxn t) (grant_loop {D = D} (txn t) user roles g rv)
  unfolding grant_loop
  grant_loop-OnTxn user [] g rv = Emits-pure (g, rv)
  grant_loop-OnTxn user (role ∷ roles) g rv =
      Emits-bind (grant_step (txn t) user role g rv) _ (grant_step-OnTxn user role g rv)
        λ done. grant_loop-OnTxn user roles done.0 done.1

  undo_granted-OnTxn :
      (user : String) (roles : List String)
      → Emits (OnTxn t) (undo_granted {D = D} (txn t) user roles)
  unfolding undo_granted
  undo_granted-OnTxn user [] = Emits-pure tt
  undo_granted-OnTxn user (role ∷ roles) =
      Emits-bind (revoke_role_membership (txn t) role user) _
        (revoke_role_membership-OnTxn role user) λ b. undo_granted-OnTxn user roles

  regrant-OnTxn : (user role : String) → Emits (OnTxn t) (regrant {D = D} (txn t) user role)
  unfolding regrant
  regrant-OnTxn user role = search (txn_rules, role_exists-OnTxn, grant_role_membership-OnTxn)

  undo_revoked-OnTxn :
      (user : String) (roles : List String)
      → Emits (OnTxn t) (undo_revoked {D = D} (txn t) user roles)
  unfolding undo_revoked
  undo_revoked-OnTxn user [] = Emits-pure tt
  undo_revoked-OnTxn user (role ∷ roles) =
      Emits-bind (regrant (txn t) user role) _ (regrant-OnTxn user role)
        λ b. undo_revoked-OnTxn user roles

  grant_around-OnTxn :
      (user : String) (roles : List String) (fn : M D (Unit {0}))
      → Emits (OnTxn t) fn
      → Emits (OnTxn t) (grant_around (txn t) user roles fn)
  unfolding grant_around
  grant_around-OnTxn user roles fn h =
      Emits-bind (grant_loop (txn t) user roles [] []) _ (grant_loop-OnTxn user roles [] []) λ done.
        Emits-bind fn _ h λ _.
          Emits-bind (undo_granted (txn t) user done.0) _ (undo_granted-OnTxn user done.0)
            λ _. undo_revoked-OnTxn user done.1

  -- The temporary grants stay in the transaction, if the wrapped function does.
  pub with_roles_granted-OnTxn :
      (roles : List String) (fn : M D (Unit {0}))
      → Emits (OnTxn t) fn
      → Emits (OnTxn t) (with_roles_granted (txn t) roles fn)
  unfolding with_roles_granted
  with_roles_granted-OnTxn [] fn h = h
  with_roles_granted-OnTxn (first ∷ roles) fn h =
      Emits-bind (get_current_user (txn t)) _ get_current_user-OnTxn λ user.
        Emits-bind (is_superuser (txn t) user) _ (is_superuser-OnTxn user)
          λ super. Emits-if super fn _ h (grant_around-OnTxn user (first ∷ roles) fn h)

pub ruleset helper_rules = (
  txn_rules, role_exists-OnTxn, is_superuser-OnTxn, pg_lock_role-OnTxn, get_current_user-OnTxn,
  get_database_owner-OnTxn, get_schema_owner-OnTxn, schema_exists-OnTxn, db_exists-OnTxn,
  get_role_oid-OnTxn, get_tables_owner-OnTxn, with_roles_granted-OnTxn,
)
