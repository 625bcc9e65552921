-- ===== src/Role/Update/Unchanged.antt =====
-- An update of a role whose attributes did not change.
use terraform_provider_postg.Role.Update.{
  alter_role, set_role_bypass_rls, set_role_conn_limit, set_role_create_db, set_role_create_role,
  set_role_inherit, set_role_login, set_role_name, set_role_password, set_role_replication,
  set_role_superuser, set_role_valid_until,
}
use terraform_provider_postg.Base.{bool_changed, Bool, arith, eq_refl, false, refl, true, ℕ, ◌≡◌}
use terraform_provider_postg.Effect.{Env, M, Session, ok, ◌>>=◌, ◌>>◌}
use terraform_provider_postg.Role.{RoleData}
use terraform_provider_postg.Text.Decimal.{int_eq, negsuc, pos, ℤ}

-- It sends nothing and changes nothing, if no attribute changed.
record Idle (m : M RoleData (Unit {0})) : Type 0 where
  at : (env : Env) (s : Session RoleData) → s.res.old ≡ s.res.attrs → m env s ≡ (ok tt, s)

Idle-then : (m n : M RoleData (Unit {0})) → Idle m → Idle n → Idle (m >> n)
unfolding ◌>>=◌
Idle-then m n h k = record { at = λ env s e. rw (h.at env s e) (k.at env s e) }

bool_changed_lem : (b : Bool) → bool_changed b b ≡ false
bool_changed_lem true = refl
bool_changed_lem false = refl

int_eq_lem : (n : ℤ) → int_eq n n ≡ true
unfolding int_eq
int_eq_lem (pos n) = ground arith
int_eq_lem (negsuc n) = ground arith

set_role_name-Idle : (t : ℕ) → Idle (set_role_name t)
unfolding set_role_name ◌>>=◌
set_role_name-Idle t = record { at = λ env s e. rw (e, eq_refl s.res.attrs.name) refl }

set_role_password-Idle : (t : ℕ) → Idle (set_role_password t)
unfolding set_role_password ◌>>=◌
set_role_password-Idle t = record {
  at = λ env s e. rw (e, eq_refl s.res.attrs.name, eq_refl s.res.attrs.password) refl;
}

set_role_conn_limit-Idle : (t : ℕ) → Idle (set_role_conn_limit t)
unfolding set_role_conn_limit ◌>>=◌
set_role_conn_limit-Idle t = record {
  at = λ env s e. rw (e, int_eq_lem s.res.attrs.connection_limit) refl;
}

set_role_valid_until-Idle : (t : ℕ) → Idle (set_role_valid_until t)
unfolding set_role_valid_until ◌>>=◌
set_role_valid_until-Idle t = record {
  at = λ env s e. rw (e, eq_refl s.res.attrs.valid_until) refl;
}

set_role_bypass_rls-Idle : (t : ℕ) → Idle (set_role_bypass_rls t)
unfolding set_role_bypass_rls ◌>>=◌
set_role_bypass_rls-Idle t = record {
  at = λ env s e. rw (e, bool_changed_lem s.res.attrs.bypass_row_level_security) refl;
}

set_role_create_db-Idle : (t : ℕ) → Idle (set_role_create_db t)
unfolding set_role_create_db ◌>>=◌
set_role_create_db-Idle t = record {
  at = λ env s e. rw (e, bool_changed_lem s.res.attrs.create_database) refl;
}

set_role_create_role-Idle : (t : ℕ) → Idle (set_role_create_role t)
unfolding set_role_create_role ◌>>=◌
set_role_create_role-Idle t = record {
  at = λ env s e. rw (e, bool_changed_lem s.res.attrs.create_role) refl;
}

set_role_inherit-Idle : (t : ℕ) → Idle (set_role_inherit t)
unfolding set_role_inherit ◌>>=◌
set_role_inherit-Idle t = record {
  at = λ env s e. rw (e, bool_changed_lem s.res.attrs.inherit) refl;
}

set_role_login-Idle : (t : ℕ) → Idle (set_role_login t)
unfolding set_role_login ◌>>=◌
set_role_login-Idle t = record { at = λ env s e. rw (e, bool_changed_lem s.res.attrs.login) refl }

set_role_replication-Idle : (t : ℕ) → Idle (set_role_replication t)
unfolding set_role_replication ◌>>=◌
set_role_replication-Idle t = record {
  at = λ env s e. rw (e, bool_changed_lem s.res.attrs.replication) refl;
}

set_role_superuser-Idle : (t : ℕ) → Idle (set_role_superuser t)
unfolding set_role_superuser ◌>>=◌
set_role_superuser-Idle t = record {
  at = λ env s e. rw (e, bool_changed_lem s.res.attrs.superuser) refl;
}

ruleset idle = (
  set_role_name-Idle, set_role_password-Idle, set_role_bypass_rls-Idle, set_role_conn_limit-Idle,
  set_role_create_db-Idle, set_role_create_role-Idle, set_role_inherit-Idle, set_role_login-Idle,
  set_role_replication-Idle, set_role_superuser-Idle, set_role_valid_until-Idle,
)

alter_role-Idle : (t : ℕ) → Idle (alter_role t)
unfolding alter_role
alter_role-Idle t = search (Idle-then, idle) depth 24

-- If the attributes of a role are the same before and after, then the part of an update that alters
-- the role itself sends nothing, changes nothing, and succeeds, on every server.
pub alter_role_lem :
    (t : ℕ) (env : Env) (s : Session RoleData)
    → s.res.old ≡ s.res.attrs
    → alter_role t env s ≡ (ok tt, s)
alter_role_lem t env s e = (alter_role-Idle t).at env s e
