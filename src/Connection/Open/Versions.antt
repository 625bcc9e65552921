-- ===== src/Connection/Open/Versions.antt =====
-- Which version postgresql/config.go reads from the server's text.
use Prim.Native.Char.{Char, code}
use Prim.Native.String.{[], ◌∷◌, ◌++◌}
use text.Mathlib.TextLemmas.{nil-append, cons-append}
use terraform_provider_postg.Base.{List, String, ap, none, refl, true, false, ◌≡◌, ◌∙◌}
use terraform_provider_postg.Connection.{Process, Outside, asked_version, record_deed}
use terraform_provider_postg.Connection.Open.{
  fields_from, fields_func, fingerprint_capabilities, is_separator, version_field, version_text,
}
use terraform_provider_postg.Effect.{Env, Session, ok, or_fail, pure, row, wrap, ◌>>=◌}
use terraform_provider_postg.Text.{nonempty}

-- No character of the text separates fields.
abbrev pub IsWord : String → Type 0
IsWord [] = Unit
IsWord (c ∷ s) = (is_separator (code c) ≡ false) × IsWord s

separated :
    (sep : Char) (rest : String)
    → is_separator (code sep) ≡ true
    → fields_from (sep ∷ rest) ≡ ("", fields_func rest)
unfolding fields_from fields_func
separated sep rest h = rw h refl

longer :
    (c : Char) (s word : String) (fields : List String)
    → is_separator (code c) ≡ false
    → fields_from s ≡ (word, fields)
    → fields_from (c ∷ s) ≡ (c ∷ word, fields)
unfolding fields_from
longer c s word fields h e = rw (h, e) refl

word_fields :
    (word rest : String) (sep : Char)
    → IsWord word
    → is_separator (code sep) ≡ true
    → fields_from (word ++ (sep ∷ rest)) ≡ (word, fields_func rest)
word_fields [] rest sep w h = ap fields_from (nil-append (sep ∷ rest)) ∙ separated sep rest h
word_fields (c ∷ word) rest sep (w, ws) h =
    ap fields_from (cons-append c word (sep ∷ rest))
    ∙ longer c (word ++ (sep ∷ rest)) word (fields_func rest) w (word_fields word rest sep ws h)

fields_func-word :
    (word rest : String) (sep : Char)
    → IsWord word
    → nonempty word ≡ true
    → is_separator (code sep) ≡ true
    → fields_func (word ++ (sep ∷ rest)) ≡ List.◌∷◌ word (fields_func rest)
unfolding fields_func
fields_func-word word rest sep w n h = rw (word_fields word rest sep w h, n) refl

module _ {Version : Type 0} (dsn : String) where
  abbrev pub behind_asking : Session (Process Version) → Session (Process Version)
  behind_asking s = record s {
    res = record (s.res) { deeds = List.◌∷◌ (asked_version dsn) s.res.deeds };
  }

module _ {Version : Type 0} (out : Outside Version) (env : Env) (dsn : String) where
  -- If the server's text is two words that a space separates, before another white space or a comma
  -- and any other text, and the library reads the second word as a version, then the fingerprint is
  -- that version.
  pub fingerprint_capabilities-version :
      (name version rest : String) (sep : Char) (v : Version) (s : Session (Process Version))
      → IsWord name × (nonempty name ≡ true)
      → IsWord version × (nonempty version ≡ true)
      → is_separator (code sep) ≡ true
      → out.scan_version s.res.deeds dsn ≡ row (name ++ (" " ∷ (version ++ (sep ∷ rest))))
      → out.parse_tolerant version ≡ (v, none)
      → fingerprint_capabilities out dsn env s ≡ (ok v, behind_asking dsn s)
  unfolding fingerprint_capabilities version_text version_field record_deed wrap or_fail pure ◌>>=◌
  fingerprint_capabilities-version name version rest sep v s (wn, nn) (wv, nv) h scan parse =
      rw
        (
          scan,
          fields_func-word name (version ++ (sep ∷ rest)) " " wn nn refl,
          fields_func-word version rest sep wv nv h,
          parse,
        )
        refl
