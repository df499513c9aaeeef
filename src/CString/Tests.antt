-- ===== src/CString/Tests.antt =====
-- Tests of the tokenizer.
use adb_server_project.Common.{ℕ, ◌≡◌, refl, List, [], ◌∷◌, ◌++◌, some, none, arith}
use adb_server_project.CString.{codes, adb_strtok_r, for_tokens}
use adb_server_project.CString.Search.{Without-is_without}
use adb_server_project.CString.Split.{words, IsText, for_tokens-adb_strtok_r}

-- Two delimiters in a row, and one at the end.
abbrev fields : List ℕ
fields = codes ";a=1;;b;"

fields-IsText : IsText fields
fields-IsText = Without-is_without 0 fields refl

words_of_fields : words (codes ";") fields ≡ codes "a=1" ∷ codes "b" ∷ []
words_of_fields = refl

abbrev collect : List (List ℕ) → List ℕ → List (List ℕ)
collect seen word = seen ++ word ∷ []

for_tokens-adb_strtok_r_example :
    for_tokens 8
      (codes ";")
      collect
      (adb_strtok_r (some (fields ++ 0 ∷ 9 ∷ [])) (codes ";") none)
      []
    ≡ some (codes "a=1" ∷ codes "b" ∷ [])
for_tokens-adb_strtok_r_example =
    for_tokens-adb_strtok_r (codes ";") (9 ∷ []) none collect refl 8 fields [] fields-IsText
      (omega arith)
