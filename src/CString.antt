-- ===== src/CString.antt =====
-- C strings of adb_func.cpp and Catransport.cpp: adb_strtok_r, qual_overwrite, and the standard
-- strchr and strcmp that parse_banner calls. A `char *` into an array is the list of the bytes from
-- there to the end of the array; a string that the code has ended with a NUL is the list of the
-- bytes before the NUL. A NUL that the code writes ends the text before it, and nothing reads it
-- from behind.
pub mod Split
pub mod Search
pub mod Tests
use Prim.Native.Char.{code}
use Prim.Native.String.{String}
use adb_server_project.Common.{
  ℕ, zero, suc, ◌≡◌, Bool, true, false, ◌&&◌, ◌||◌, List, [], ◌∷◌, Option, none, some,
  if◌then◌else◌, ◌==◌,
}

abbrev pub codes : String → List ℕ
codes String.[] = []
codes (String.◌∷◌ c s) = code c ∷ codes s

abbrev pub elem : ℕ → List ℕ → Bool
elem c [] = false
elem c (d ∷ ds) = c == d || elem c ds

-- strcmp(a, b) == 0.
unfoldable pub strcmp_eq : List ℕ → List ℕ → Bool
strcmp_eq [] [] = true
strcmp_eq [] (b ∷ bs) = false
strcmp_eq (a ∷ rest) [] = false
strcmp_eq (a ∷ rest) (b ∷ bs) = a == b && strcmp_eq rest bs

-- What strchr(s, c) followed by `*cp++ = 0` leaves: the text up to the found character and the
-- pointer behind it, or the whole text where there is none; `outside` is a read past the array.
pub data Found : Type 0 where
  outside : Found
  absent : List ℕ → Found
  found : List ℕ → List ℕ → Found

abbrev found_cons : ℕ → Found → Found
found_cons d outside = outside
found_cons d (absent s) = absent (d ∷ s)
found_cons d (found s rest) = found (d ∷ s) rest

unfoldable pub strchr : List ℕ → ℕ → Found
strchr [] c = outside
strchr (d ∷ s) c =
    if d == 0 then absent [] else (if d == c then found [] s else found_cons d (strchr s c))

-- What adb_strtok_r returns, with the new value of `*last`.
pub data Token : Type 0 where
  outside : Token
  finished : Token
  token : List ℕ → Option (List ℕ) → Token

abbrev token_cons : ℕ → Token → Token
token_cons d outside = outside
token_cons d finished = finished
token_cons d (token s last) = token (d ∷ s) last

-- The second loop: up to a delimiter, which becomes NUL, or to the end of the string.
pub scan_token : List ℕ → List ℕ → Token
scan_token delim [] = outside
scan_token delim (c ∷ s) =
    if c == 0
    then token [] none
    else (if elem c delim then token [] (some s) else token_cons c (scan_token delim s))

-- The loop `cont:` over leading delimiters, then the token.
pub next_token : List ℕ → List ℕ → Token
next_token delim [] = outside
next_token delim (c ∷ s) =
    if elem c delim
    then next_token delim s
    else (if c == 0 then finished else token_cons c (scan_token delim s))

unfoldable pub adb_strtok_r : Option (List ℕ) → List ℕ → Option (List ℕ) → Token
unfolding next_token scan_token
adb_strtok_r (some s) delim last = next_token delim s
adb_strtok_r none delim (some s) = next_token delim s
adb_strtok_r none delim none = finished

-- `while (key) { body; key = adb_strtok_r(NULL, delim, &save); }` from a first call; `none` is a
-- read past the array, or too little fuel.
unfoldable pub for_tokens {ℓ} : {S : Type ℓ} → ℕ → List ℕ → (S → List ℕ → S) → Token → S → Option S
for_tokens fuel delim body outside st = none
for_tokens fuel delim body finished st = some st
for_tokens zero delim body (token key last) st = none
for_tokens (suc fuel) delim body (token key last) st =
    for_tokens fuel delim body (adb_strtok_r none delim last) (body st key)

-- `free(*dst); *dst = NULL`, and a copy of a `src` that is neither null nor empty.
unfoldable pub qual_overwrite : Option (List ℕ) → Option (List ℕ) → Option (List ℕ)
qual_overwrite dst none = none
qual_overwrite dst (some []) = none
qual_overwrite dst (some (c ∷ s)) = some (c ∷ s)
