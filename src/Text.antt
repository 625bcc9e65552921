-- ===== src/Text.antt =====
-- The functions of Go's `strings` and `strconv` that the provider uses, over native texts.
-- A text is the sequence of its code points; Go's byte strings are the valid UTF-8 ones.
pub mod Split
pub mod Decimal
pub mod Escape
pub mod Format
use Prim.Native.Char.{Char, code}
use Prim.Native.String.{[], ◌∷◌, ◌++◌}
use mathlib.Core.List as List
use terraform_provider_postg.Base.{ℕ, String, Bool, true, false, List, if◌then◌else◌, ◌=ℕ◌, ◌==◌}

-- strings.Join(parts, sep)
unfoldable pub join : List String → String → String
join List.[] sep = ""
join (List.◌∷◌ p List.[]) sep = p
join (List.◌∷◌ p (List.◌∷◌ q ps)) sep = p ++ (sep ++ join (List.◌∷◌ q ps) sep)

-- strings.Replace(s, old, new, -1) for an `old` of one character
unfoldable pub replace_char : ℕ → String → String → String
replace_char old new [] = ""
replace_char old new (c ∷ s) = (if code c =ℕ old then new else (c ∷ [])) ++ replace_char old new s

abbrev pub push_front : Char → List String → List String
push_front c List.[] = List.◌∷◌ (c ∷ []) List.[]
push_front c (List.◌∷◌ p ps) = List.◌∷◌ (c ∷ p) ps

-- strings.Split(s, sep) for a `sep` of one character
unfoldable pub split_char : ℕ → String → List String
split_char sep [] = List.◌∷◌ "" List.[]
split_char sep (c ∷ s) =
    let rest = split_char sep s in if code c =ℕ sep then List.◌∷◌ "" rest else push_front c rest

-- The character that stands in the second text where `c` stands in the first.
translate : String → String → Char → Char
translate (a ∷ from) (b ∷ to) c =
    let rest = translate from to c in if code a =ℕ code c then b else rest
translate _ _ c = c

map_chars : (Char → Char) → String → String
map_chars f [] = ""
map_chars f (c ∷ s) = f c ∷ map_chars f s

-- strings.ToUpper on ASCII, and on the two other letters whose upper case is ASCII.
unfoldable pub to_upper : String → String
unfolding translate map_chars
to_upper = map_chars (translate "abcdefghijklmnopqrstuvwxyzıſ" "ABCDEFGHIJKLMNOPQRSTUVWXYZIS")

-- strings.ToLower on ASCII, and on the two other letters whose lower case is ASCII.
unfoldable pub to_lower : String → String
unfolding translate map_chars
to_lower = map_chars (translate "ABCDEFGHIJKLMNOPQRSTUVWXYZİK" "abcdefghijklmnopqrstuvwxyzik")

-- fmt's %t and strconv.FormatBool
abbrev pub format_bool : Bool → String
format_bool true = "true"
format_bool false = "false"

-- `len(s) > 0` of a text, as `GetOk` tests it
abbrev pub nonempty : String → Bool
nonempty s = if s == "" then false else true
