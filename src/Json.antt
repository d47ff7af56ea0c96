-- ===== src/Json.antt =====
-- `json.dumps` of Python, for the values that the control plane writes: texts, lists of texts and
-- objects. Every character but printable ASCII is escaped.
use saas_ntier_lab.Prelude.{
  ℕ, zero, suc, ◌+◌, ◌-◌, ◌/◌, ◌%◌, ◌≡◌, refl, String, code, ◌&&◌, List, [], ◌∷◌, eqb, leb, ltb,
  join, ◌<>◌, if◌then◌else◌,
}

-- `s[k]` as a text
char_at : ℕ → String → String
char_at k String.[] = ""
char_at zero (String.◌∷◌ c s) = String.◌∷◌ c ""
char_at (suc k) (String.◌∷◌ c s) = char_at k s

hex_digit : ℕ → String
unfolding char_at
hex_digit n = char_at n "0123456789abcdef"

-- `\uXXXX`
unicode : ℕ → String
unfolding hex_digit
unicode n =
    "\\u"
    <> hex_digit (n / 4096 % 16)
    <> hex_digit (n / 256 % 16)
    <> hex_digit (n / 16 % 16)
    <> hex_digit (n % 16)

-- One character; one beyond `\uFFFF` is two surrogates.
escape : ℕ → String → String
unfolding unicode
escape n itself =
    if eqb n b'"'
    then "\\\""
    else if eqb n b'\\'
    then "\\\\"
    else if eqb n 10
    then "\\n"
    else if eqb n 13
    then "\\r"
    else if eqb n 9
    then "\\t"
    else if eqb n 12
    then "\\f"
    else if eqb n 8
    then "\\b"
    else if leb 32 n && leb n 126
    then itself
    else if ltb n 65536
    then unicode n
    else unicode (55296 + (n - 65536) / 1024) <> unicode (56320 + (n - 65536) % 1024)

escaped : String → String
unfolding escape
escaped String.[] = ""
escaped (String.◌∷◌ c s) = escape (code c) (String.◌∷◌ c "") <> escaped s

unfoldable pub json_text : String → String
unfolding escaped
json_text s = "\"" <> escaped s <> "\""

json_texts : List String → List String
unfolding json_text
json_texts [] = []
json_texts (s ∷ ss) = json_text s ∷ json_texts ss

unfoldable pub json_list : List String → String
unfolding json_texts join
json_list ss = "[" <> join ", " (json_texts ss) <> "]"

-- The members of an object, each with its value written as JSON.
members : List (String × String) → List String
unfolding json_text
members [] = []
members ((k, v) ∷ d) = (json_text k <> ": " <> v) ∷ members d

unfoldable pub json_object : List (String × String) → String
unfolding members join
json_object d = "{" <> join ", " (members d) <> "}"

texts_of : List (String × String) → List (String × String)
unfolding json_text
texts_of [] = []
texts_of ((k, v) ∷ d) = (k, json_text v) ∷ texts_of d

-- A dict whose values are texts
unfoldable pub json_dict : List (String × String) → String
unfolding texts_of json_object
json_dict d = json_object (texts_of d)

dict_runs : json_dict (("a", "x\"y") ∷ ("b", "é") ∷ []) ≡ "{\"a\": \"x\\\"y\", \"b\": \"\\u00e9\"}"
unfolding json_dict
dict_runs = refl
