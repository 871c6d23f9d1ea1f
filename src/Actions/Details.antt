-- ===== src/Actions/Details.antt =====
-- `json.Marshal` of a map of texts, as internal/store/reports_commands.go uses it for the audit: the keys
-- are given in their order, and what HTML or JavaScript could read otherwise is escaped.
use Prim.Native.Char.{Char, code}
use Prim.Native.String.{slice, ◌++◌}
use witshield.Base.{ℕ, ◌+◌, ◌%◌, ◌/◌, String, ltb, ◌==◌, ◌||◌, if◌then◌else◌}

abbrev hex_digit : ℕ → String
hex_digit n = slice "0123456789abcdef" n (n + 1)

-- One character between the quotes.
unfoldable pub json_char : Char → String
json_char c =
    let n = code c in
    if n == 34
    then "\\\""
    else if n == 92
    then "\\\\"
    else if n == 8
    then "\\b"
    else if n == 9
    then "\\t"
    else if n == 10
    then "\\n"
    else if n == 12
    then "\\f"
    else if n == 13
    then "\\r"
    else if ltb n 32 || n == 38 || n == 60 || n == 62
    then "\\u00" ++ hex_digit (n / 16) ++ hex_digit (n % 16)
    else if n == 8232
    then "\\u2028"
    else if n == 8233
    then "\\u2029"
    else String.◌∷◌ c String.[]

unfoldable pub json_chars : String → String
unfolding json_char
json_chars String.[] = String.[]
json_chars (String.◌∷◌ c s) = json_char c ++ json_chars s

unfoldable pub json_string : String → String
unfolding json_chars
json_string s = "\"" ++ json_chars s ++ "\""
