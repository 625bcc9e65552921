-- ===== src/Connection/Open/Preserved.antt =====
-- Opening connections in postgresql/config.go keeps the invariants of connecting.
use terraform_provider_postg.Base.{List, Option, String, [], none, some, suc, zero, ℕ, ◌∷◌}
use terraform_provider_postg.Connection.{Outside, Process}
use terraform_provider_postg.Connection.Open.{
  ping, sleep, after_open, after_ping, close_on_err, fingerprint_or_close, open_db, version_field,
  version_text, attempt, detect_version, fingerprint_capabilities, open_connection,
}
use terraform_provider_postg.Connection.Stable.{Stable, deed-Preserves}
use terraform_provider_postg.Effect.{Error, M, Result, Scan, err, failed, no_rows, ok, panic, row}
use terraform_provider_postg.Effect.Preserves.{preserves_rules, Preserves}

module _ {Version : Type 0} (I : Process Version → Type 0) (stable : Stable I)
    (out : Outside Version) where
  ping-Preserves :
      (rest : Option Error → M (Process Version) (Option Error)) (o : Option Error)
      → ((e : Option Error) → Preserves I (rest e))
      → Preserves I (after_ping out rest o)
  unfolding after_ping
  ping-Preserves rest none h = search preserves_rules
  ping-Preserves rest (some e) h = h _

  open-Preserves :
      (dsn : String) (rest : Option Error → M (Process Version) (Option Error)) (o : Option Error)
      → ((e : Option Error) → Preserves I (rest e))
      → Preserves I (after_open out dsn rest o)
  unfolding after_open sleep ping
  open-Preserves dsn rest none h =
      search (preserves_rules, deed-Preserves I stable, ping-Preserves, h) depth 12
  open-Preserves dsn rest (some e) h = search (preserves_rules, deed-Preserves I stable, h) depth 12

  attempt-Preserves : (n : ℕ) (dsn : String) (e : Option Error) → Preserves I (attempt out n dsn e)
  unfolding attempt open_db
  attempt-Preserves zero dsn e = search preserves_rules
  attempt-Preserves (suc n) dsn e =
      search (preserves_rules, deed-Preserves I stable, open-Preserves, attempt-Preserves n) depth
        12

  pub open_connection-Preserves :
      (scheme dsn : String) → Preserves I (open_connection out scheme dsn)
  unfolding open_connection open_db
  open_connection-Preserves scheme dsn =
      search (preserves_rules, deed-Preserves I stable, attempt-Preserves) depth 12

  text-Preserves : (o : Scan String) → Preserves I (version_text out o)
  unfolding version_text
  text-Preserves no_rows = search preserves_rules
  text-Preserves (failed e) = search preserves_rules
  text-Preserves (row v) = search preserves_rules

  field-Preserves : (v : String) (fields : List String) → Preserves I (version_field out v fields)
  unfolding version_field
  field-Preserves v [] = search preserves_rules
  field-Preserves v (x ∷ []) = search preserves_rules
  field-Preserves v (x ∷ y ∷ rest) = search preserves_rules

  fingerprint-Preserves : (dsn : String) → Preserves I (fingerprint_capabilities out dsn)
  unfolding fingerprint_capabilities
  fingerprint-Preserves dsn =
      search (preserves_rules, deed-Preserves I stable, text-Preserves, field-Preserves) depth 16

  close-Preserves : (dsn : String) (r : Result Version) → Preserves I (close_on_err out dsn r)
  close-Preserves dsn (ok v) = search preserves_rules
  close-Preserves dsn (err e) = search (preserves_rules, deed-Preserves I stable) depth 12
  close-Preserves dsn panic = search preserves_rules

  checked-Preserves : (dsn : String) → Preserves I (fingerprint_or_close out dsn)
  unfolding fingerprint_or_close
  checked-Preserves dsn = record {
    at = λ env s i.
        (close-Preserves dsn (fingerprint_capabilities out dsn env s).0).at env
          (fingerprint_capabilities out dsn env s).1 ((fingerprint-Preserves dsn).at env s i);
  }

  pub detect_version-Preserves : (dsn : String) → Preserves I (detect_version out dsn)
  unfolding detect_version
  detect_version-Preserves dsn = search (preserves_rules, checked-Preserves) depth 12
