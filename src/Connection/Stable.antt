-- ===== src/Connection/Stable.antt =====
-- Invariants of the process's state in postgresql/config.go that connecting keeps.
use terraform_provider_postg.Base.{List, String, ℕ, ◌∷◌}
use terraform_provider_postg.Connection.{DbConnection, Deed, Process, record_deed}
use terraform_provider_postg.Effect.Preserves.{Preserves, Preserves-modify}
use terraform_provider_postg.Map.{Map, put, remove}

module _ {Version : Type 0} where
  -- An invariant that does not depend on the deeds and the tunnels, and that holds
  -- of the registry when a connection is removed, or put under its own string.
  pub record Stable (I : Process Version → Type 0) : Type 0 where
    pub deeds_ok : (p : Process Version) (ds : List Deed) → I p → I (record p { deeds = ds })
    pub tunnels_ok :
        (p : Process Version) (ports : List ℕ) → I p → I (record p { running_commands = ports })
    pub remove_ok :
        (p : Process Version) (dsn : String)
        → I p
        → I (record p { db_registry = remove dsn p.db_registry })
    pub put_ok :
        (p : Process Version) (conn : DbConnection Version)
        → I p
        → I (record p { db_registry = put conn.dsn conn p.db_registry })

  -- It does not depend on the passwords either.
  abbrev pub PasswordsFree : (Process Version → Type 0) → Type 0
  PasswordsFree I =
      (p : Process Version) (m : Map String) → I p → I (record p { password_cache = m })

  module _ (I : Process Version → Type 0) (stable : Stable I) where
    pub deed-Preserves : (deed : Deed) → Preserves I (record_deed deed)
    unfolding record_deed
    deed-Preserves deed = Preserves-modify I _ (λ p i. stable.deeds_ok p (deed ∷ p.deeds) i)
