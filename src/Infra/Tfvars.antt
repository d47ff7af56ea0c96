-- ===== src/Infra/Tfvars.antt =====
-- The regular expressions of control-plane/infra.py, as recognizers: the list `tenant_ids = [...]` in
-- the variables' text, and the ids in it.
pub mod RoundTrip
use Prim.Native.String
use saas_ntier_lab.Prelude.{
  ℕ, String, Char, code, Bool, true, false, not, ◌&&◌, ◌||◌, Option, none, some, List, [], ◌∷◌,
  ◌++◌, eqb, ltb, length, codes, ◌==◌, ◌<>◌, is_space, join, starts_with, drop, if◌then◌else◌,
}
use saas_ntier_lab.Prelude.{◌≡◌, refl}
use saas_ntier_lab.Ids.{is_lower_letter, is_id_char}

abbrev pub one : Char → String
one c = String.◌∷◌ c String.[]

-- `\s*` at the beginning of a text, and what follows it
pub take_space : String → String
unfolding is_space
take_space String.[] = ""
take_space (String.◌∷◌ c s) =
    let rest = take_space s in if is_space (code c) then one c <> rest else ""

pub skip_space : String → String
unfolding is_space
skip_space String.[] = ""
skip_space (String.◌∷◌ c s) =
    let rest = skip_space s in if is_space (code c) then rest else String.◌∷◌ c s

-- `[^\]]*`, and what follows it
pub before_bracket : String → String
before_bracket String.[] = ""
before_bracket (String.◌∷◌ c s) =
    let rest = before_bracket s in if eqb (code c) b']' then "" else one c <> rest

pub from_bracket : String → String
from_bracket String.[] = ""
from_bracket (String.◌∷◌ c s) =
    let rest = from_bracket s in if eqb (code c) b']' then String.◌∷◌ c s else rest

-- What stands before the last line feed of a text, if it has one.
abbrev with_first : Char → Option String → Option String
with_first c (some s) = some (one c <> s)
with_first c none = if eqb (code c) 10 then some "" else none

pub before_last_line_feed : String → Option String
before_last_line_feed String.[] = none
before_last_line_feed (String.◌∷◌ c s) = with_first c (before_last_line_feed s)

-- A match: what is before it, its three groups, and what is after it.
pub record Found : Type 0 where
  pub before : String
  pub head : String
  pub inner : String
  pub tail : String
  pub after : String

-- `(\s*)$`: all the white space if the text ends there, and else up to before its last line feed.
abbrev pub line_end : String → Option String
line_end s = if skip_space s == "" then some s else before_last_line_feed (take_space s)

abbrev part : Bool → Option Found → Option Found
part b found = if b then found else none

abbrev ended : String → String → String → String → Option String → Option Found
ended before head inner s none = none
ended before head inner s (some tail) = some (record {
  before = before;
  head = head;
  inner = inner;
  tail = tail;
  after = drop (length (codes tail)) s;
})

-- A match that begins here, at the beginning of a line.
pub match_at : String → String → Option Found
unfolding take_space skip_space before_bracket from_bracket before_last_line_feed starts_with drop
match_at before s =
    let name = skip_space s in
    let equals = skip_space (drop 10 name) in
    let bracket = skip_space (drop 1 equals) in
    let inner = before_bracket (drop 1 bracket) in
    let close = from_bracket (drop 1 bracket) in
    let head =
      take_space s
      <> "tenant_ids"
      <> take_space (drop 10 name)
      <> "="
      <> take_space (drop 1 equals) in
    part
      (starts_with name "tenant_ids"
        && starts_with equals "="
        && starts_with bracket "["
        && starts_with close "]")
      (ended before head inner (drop 1 close) (line_end (drop 1 close)))

abbrev or_next : Option Found → Option Found → Option Found
or_next (some m) next = some m
or_next none next = next

-- The first match from here on; `start` says that a line begins here.
pub search_from : String → Bool → String → Option Found
unfolding match_at
search_from before start String.[] = if start then match_at before "" else none
search_from before start (String.◌∷◌ c s) =
    or_next (if start then match_at before (String.◌∷◌ c s) else none)
      (search_from (before <> one c) (eqb (code c) 10) s)

-- `_TENANT_IDS_RE.search`
unfoldable pub search_ids : String → Option Found
unfolding search_from
search_ids text = search_from "" true text

-- `re.findall(r'"([a-z][a-z0-9]{0,15})"', …)`. `some acc` is the state within a match, after its quote
-- and the characters `acc`.
abbrev pub next_state : Option String → Char → Option String
next_state none c = if eqb (code c) b'"' then some "" else none
next_state (some acc) c =
    if eqb (code c) b'"'
    then (if acc == "" then some "" else none)
    else if (if acc == ""
        then is_lower_letter (code c)
        else is_id_char (code c) && ltb (length (codes acc)) 16)
    then some (acc <> one c)
    else none

abbrev pub emitted : Option String → Char → List String
emitted none c = []
emitted (some acc) c = if eqb (code c) b'"' && not (acc == "") then acc ∷ [] else []

pub parse_from : Option String → String → List String
parse_from state String.[] = []
parse_from state (String.◌∷◌ c s) = emitted state c ++ parse_from (next_state state c) s

-- `_parse_ids`
unfoldable pub parse_ids : String → List String
unfolding parse_from
parse_ids inner = parse_from none inner

abbrev pub quoted : List String → List String
quoted [] = []
quoted (k ∷ ks) = ("\"" <> k <> "\"") ∷ quoted ks

-- `_format_ids`, within its brackets
unfoldable pub inner_text : List String → String
unfolding join
inner_text ids = join ", " (quoted ids)

unfoldable pub format_ids : List String → String
unfolding inner_text
format_ids ids = "[" <> inner_text ids <> "]"

-- The text with the match's list replaced
unfoldable pub replace_ids : Found → List String → String
unfolding format_ids
replace_ids m ids = m.before <> m.head <> format_ids ids <> m.tail <> m.after

parse_runs : parse_ids "\"a\", \"b2\", \"B\", \"\"c\"" ≡ "a" ∷ "b2" ∷ "c" ∷ []
unfolding parse_ids
parse_runs = refl

abbrev sample : String
sample = "x = 1\n  tenant_ids = [\"a\"]  \ny = 2\n"

search_runs :
    search_ids sample
    ≡ some (record {
      before = "x = 1\n";
      head = "  tenant_ids = ";
      inner = "\"a\"";
      tail = "  ";
      after = "\ny = 2\n";
    })
unfolding search_ids match_at
search_runs = refl
