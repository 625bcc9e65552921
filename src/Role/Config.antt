-- ===== src/Role/Config.antt =====
-- Reading `rolconfig`: the search path and the two timeouts of
-- postgresql/resource_postgresql_role.go.
use Prim.Native.Char.{Char, code}
use Prim.Native.String.{◌++◌}
use terraform_provider_postg.Role.{RoleData}
use terraform_provider_postg.Base.{
  Bool, List, Option, String, [], false, if◌then◌else◌, none, some, true, ◌&&◌, ◌=ℕ◌, ◌∷◌,
}
use terraform_provider_postg.Effect.{M, fail, pure, text, wrapped}
use terraform_provider_postg.Text.{push_front}
use terraform_provider_postg.Text.Decimal.{atoi, pos, ℤ}

-- strings.Split(s, ", ")
unfoldable pub split_comma : String → List String
split_comma String.[] = "" ∷ []
split_comma (String.◌∷◌ a String.[]) = (String.◌∷◌ a String.[]) ∷ []
split_comma (String.◌∷◌ a (String.◌∷◌ b s)) =
    let skipped = split_comma s in
    let longer = split_comma (String.◌∷◌ b s) in
    if code a =ℕ b',' && code b =ℕ b' ' then "" ∷ skipped else push_front a longer

-- The rest of a text behind a prefix.
unfoldable pub cut_prefix : String → String → Option String
cut_prefix String.[] s = some s
cut_prefix (String.◌∷◌ a prefix) String.[] = none
cut_prefix (String.◌∷◌ a prefix) (String.◌∷◌ b s) =
    if code a =ℕ code b then cut_prefix prefix s else none

-- strings.HasPrefix and strings.TrimPrefix
unfoldable pub has_prefix : String → String → Bool
unfolding cut_prefix
has_prefix s prefix = elim (cut_prefix prefix s) [ none ↦ false | some _ ↦ true ]

unfoldable pub trim_prefix : String → String → String
unfolding cut_prefix
trim_prefix s prefix = elim (cut_prefix prefix s) [ none ↦ s | some rest ↦ rest ]

-- strings.Trim(s, `"`)
unfoldable pub trim_left_quotes : String → String
trim_left_quotes String.[] = ""
trim_left_quotes (String.◌∷◌ c s) =
    let rest = trim_left_quotes s in if code c =ℕ b'"' then rest else String.◌∷◌ c s

-- a character before a text whose trailing quotes are gone
abbrev keep_unless_last : Char → String → String
keep_unless_last c String.[] = if code c =ℕ b'"' then "" else String.◌∷◌ c String.[]
keep_unless_last c (String.◌∷◌ d s) = String.◌∷◌ c (String.◌∷◌ d s)

unfoldable pub trim_right_quotes : String → String
trim_right_quotes String.[] = ""
trim_right_quotes (String.◌∷◌ c s) = keep_unless_last c (trim_right_quotes s)

unfoldable pub trim_quotes : String → String
unfolding trim_left_quotes trim_right_quotes
trim_quotes s = trim_right_quotes (trim_left_quotes s)

abbrev map_trim : List String → List String
map_trim [] = []
map_trim (s ∷ ss) = trim_quotes s ∷ map_trim ss

-- The parts of the first entry that begins with `key`; `none` where there is no such entry.
unfoldable pub find_entry : String → List String → Option (List String)
unfolding has_prefix trim_prefix split_comma
find_entry key [] = none
find_entry key (config ∷ configs) =
    if has_prefix config key
    then some (split_comma (trim_prefix config (key ++ "=")))
    else find_entry key configs

unfoldable pub read_search_path : List String → List String
unfolding find_entry trim_quotes
read_search_path role_config = elim (find_entry "search_path" role_config) [
  | none ↦ []
  | some parts ↦ map_trim parts
]

abbrev pub first_part : List String → String
first_part [] = ""
first_part (p ∷ ps) = p

-- The error of a text that is no number is worded alike for both timeouts.
unfoldable pub parsed_timeout : String → Option ℤ → M RoleData ℤ
parsed_timeout part none =
    fail (wrapped "Error reading statement_timeout" (text ("strconv.Atoi: parsing " ++ part)))
parsed_timeout part (some n) = pure n

unfoldable pub entry_timeout : Option (List String) → M RoleData ℤ
unfolding parsed_timeout
entry_timeout none = pure (pos 0)
entry_timeout (some parts) = parsed_timeout (first_part parts) (atoi (first_part parts))

unfoldable pub read_timeout : String → List String → M RoleData ℤ
unfolding find_entry entry_timeout
read_timeout key role_config = entry_timeout (find_entry key role_config)

abbrev pub read_statement_timeout : List String → M RoleData ℤ
read_statement_timeout = read_timeout "statement_timeout"

abbrev pub read_idle_in_transaction_session_timeout : List String → M RoleData ℤ
read_idle_in_transaction_session_timeout = read_timeout "idle_in_transaction_session_timeout"
