-- ===== src/Prelude/Split.antt =====
-- `str.split` with no argument: the words between white space.
use Prim.Native.Char.{code}
use Prim.Native.String.{String, [], ◌∷◌}
use mathlib.Core.List.{List}
use saas_ntier_lab.Prelude.Tests.{if◌then◌else◌}
use saas_ntier_lab.Prelude.Text.{is_space}

add_word : String → List String → List String
add_word [] ws = ws
add_word (c ∷ s) ws = List.◌∷◌ (c ∷ s) ws

-- The characters up to the first white space, and the words after it
words_from : String → String × List String
unfolding is_space add_word
words_from [] = ([], List.[])
words_from (c ∷ s) =
    let (word, rest) = words_from s in
    if is_space (code c) then ([], add_word word rest) else (c ∷ word, rest)

-- `s.split()`
unfoldable pub split : String → List String
unfolding words_from add_word
split s = let (word, rest) = words_from s in add_word word rest
