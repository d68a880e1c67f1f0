-- ===== src/Exec/Json.antt =====
-- `json.Marshal` of a map of texts, with which internal/lifecycle/service.go stores the variables of
-- a command.
use Prim.Native.Char.{code}
use Prim.Native.String
use Prim.Native.String.{compare}
use text.Mathlib.Text.{is_lt}
use bap_web.Prelude.{
  ℕ, ◌/◌, ◌%◌, String, ◌||◌, List, [], ◌∷◌, ◌==◌, map, ltb, if◌then◌else◌, Option, none, some,
}
use bap_web.Text.{concat, join, char_text}
use bap_web.Store.Table.{order_by}

-- A code below 65536 in four digits.
abbrev escape_code : ℕ → String
escape_code c = concat (
    "\\u"
    ∷ char_text "0123456789abcdef" (c / 4096)
    ∷ char_text "0123456789abcdef" (c / 256 % 16)
    ∷ char_text "0123456789abcdef" (c / 16 % 16)
    ∷ char_text "0123456789abcdef" (c % 16)
    ∷ [])

-- How a character is written, if not as itself.
escaped : ℕ → Option String
escaped c =
    if c == 34
    then some "\\\""
    else if c == 92
    then some "\\\\"
    else if c == 8
    then some "\\b"
    else if c == 12
    then some "\\f"
    else if c == 10
    then some "\\n"
    else if c == 13
    then some "\\r"
    else if c == 9
    then some "\\t"
    else if ltb c 32 || c == 60 || c == 62 || c == 38 || c == 0x2028 || c == 0x2029
    then some (escape_code c)
    else none

json_chars : String → String
unfolding escaped
json_chars String.[] = ""
json_chars (String.◌∷◌ c s) =
    let rest = json_chars s in
    elim (escaped (code c)) [ none ↦ String.◌∷◌ c rest | some t ↦ String.◌++◌ t rest ]

unfoldable pub json_string : String → String
unfolding json_chars
json_string s = concat ("\"" ∷ json_chars s ∷ "\"" ∷ [])

-- The names are sorted.
unfoldable pub json_map : List (String × String) → String
json_map env = concat (
    "{"
    ∷ join "," (
        map (λ (p : String × String). concat (json_string p.0 ∷ ":" ∷ json_string p.1 ∷ []))
          (order_by (λ a b. is_lt (compare a.0 b.0)) env))
    ∷ "}"
    ∷ [])
