-- ===== src/Connection/Open.antt =====
-- How postgresql/config.go opens a connection: the attempts, and the version of the server.
pub mod Attempts
pub mod Versions
pub mod Preserved
use Prim.Native.Char.{code}
use Prim.Native.String.{[], ◌∷◌, ◌++◌}
use terraform_provider_postg.Base.{
  Bool, List, Option, String, none, some, if◌then◌else◌, leb, ℕ, ◌&&◌, ◌||◌, ◌=ℕ◌, ◌==◌, zero, suc,
}
use terraform_provider_postg.Connection.{
  Process, Outside, opened, pinged, waited, drew, asked_version, closed, record_deed,
}
use terraform_provider_postg.Text.Format.{format_quoted}
use terraform_provider_postg.Effect.{
  Error, M, Scan, current, fail, no_rows, failed, row, pure, text, wrap, wrapped, or_fail, err, ok,
  panic, Result, crash, ◌>>=◌, ◌>>◌,
}
use terraform_provider_postg.Helpers.Catalog.{err_no_rows}
use terraform_provider_postg.Text.{nonempty}
use terraform_provider_postg.Text.Decimal.{ℤ, pos, int_eq}

-- `unicode.IsSpace`, or a comma
abbrev pub is_separator : ℕ → Bool
is_separator n =
    (leb 9 n && leb n 13)
    || ((n =ℕ 32)
        || ((n =ℕ 133)
            || ((n =ℕ 160)
                || ((n =ℕ 5760)
                    || ((leb 8192 n && leb n 8202)
                        || ((leb 8232 n && leb n 8233)
                            || ((n =ℕ 8239) || ((n =ℕ 8287) || ((n =ℕ 12288) || (n =ℕ 44))))))))))

-- A field that ends here, if it is one.
abbrev pub add_field : String → List String → List String
add_field field fields = if nonempty field then List.◌∷◌ field fields else fields

-- The characters before the first separator, and the fields behind them.
fields_from : String → String × List String
fields_from [] = ("", List.[])
fields_from (c ∷ s) =
    let (field, fields) = fields_from s in
    if is_separator (code c) then ("", add_field field fields) else (c ∷ field, fields)

-- `strings.FieldsFunc` with that test
unfoldable pub fields_func : String → List String
unfolding fields_from
fields_func s = let (field, fields) = fields_from s in add_field field fields

-- One connection would block on the provider's own locks, so two are allowed then. In all other
-- cases the limit stays at zero, which is none.
unfoldable pub max_connections : ℤ → ℕ
max_connections max_conns = if int_eq max_conns (pos 1) then 2 else 0

module _ {Version : Type 0} (out : Outside Version) where
  -- `time.Sleep(time.Duration(rand.Intn(10)) * time.Second)`
  sleep : M (Process Version) (Unit {0})
  sleep = do p ← current; record_deed (drew 10); record_deed (waited (out.intn p.deeds 10))

  ping : String → M (Process Version) (Option Error)
  ping dsn = do p ← current; record_deed (pinged dsn); pure (out.ping_error p.deeds dsn)

  open_db : (scheme dsn : String) → M (Process Version) (Option Error)
  open_db scheme dsn = do
    p ← current
    record_deed (opened dsn)
    pure (out.open_error p.deeds scheme dsn)

  -- Behind a ping that fails the next round comes at once; only a failed open is followed by the
  -- sleep. `rest` is the rounds left, from the value of `err` on.
  after_ping :
      (rest : Option Error → M (Process Version) (Option Error))
      → Option Error
      → M (Process Version) (Option Error)
  after_ping rest (some e) = rest (some (wrapped "failed to ping db" e))
  after_ping rest none = pure none

  after_open :
      String
      → (rest : Option Error → M (Process Version) (Option Error)) → Option Error
      → M (Process Version) (Option Error)
  unfolding sleep ping after_ping
  after_open dsn rest (some e) = sleep >>= λ _. rest (some e)
  after_open dsn rest none = ping dsn >>= after_ping rest

  -- The loop of at most `attempts` rounds, which gives the value of `err` at its end.
  unfoldable pub attempt :
      (attempts : ℕ) → String → Option Error → M (Process Version) (Option Error)
  unfolding open_db after_open
  attempt zero dsn e = pure e
  attempt (suc attempts) dsn e = open_db "postgres" dsn >>= after_open dsn (attempt attempts dsn)

  unfoldable pub open_connection : (scheme dsn : String) → M (Process Version) (Option Error)
  unfolding attempt open_db
  open_connection scheme dsn =
      if scheme == "postgres" then attempt 10 dsn none else open_db scheme dsn

  version_text : Scan String → M (Process Version) String
  version_text no_rows = fail (wrapped "error PostgreSQL version" err_no_rows)
  version_text (failed e) = fail (wrapped "error PostgreSQL version" e)
  version_text (row pg_version) = pure pg_version

  version_field : String → List String → M (Process Version) String
  version_field pg_version (List.◌∷◌ name (List.◌∷◌ version rest)) = pure version
  version_field pg_version fields =
      fail
        (text ("error determining the server version: " ++ format_quoted out.is_print pg_version))

  unfoldable pub fingerprint_capabilities : String → M (Process Version) Version
  unfolding version_text version_field
  fingerprint_capabilities dsn = do
    p ← current
    record_deed (asked_version dsn)
    pg_version ← version_text (out.scan_version p.deeds dsn)
    field ← version_field pg_version (fields_func pg_version)
    let (version, e) = out.parse_tolerant field
    wrap "error parsing version" (or_fail e)
    pure version

  abbrev close_on_err : String → Result Version → M (Process Version) Version
  close_on_err dsn (ok v) = pure v
  close_on_err dsn (err e) =
      record_deed (closed dsn) >>= λ _. fail (wrapped "error detecting capabilities" e)
  close_on_err dsn panic = crash

  fingerprint_or_close : String → M (Process Version) Version
  unfolding fingerprint_capabilities
  fingerprint_or_close dsn env s =
      let (r, s') = fingerprint_capabilities dsn env s in close_on_err dsn r env s'

  -- The expected version, or the server's if the user expects none.
  unfoldable pub detect_version : String → M (Process Version) Version
  unfolding fingerprint_or_close
  detect_version dsn = do
    p ← current
    let (default_version, _) = out.parse "9.0.0"
    if out.equals default_version p.config.expected_version
        then fingerprint_or_close dsn
        else pure p.config.expected_version
