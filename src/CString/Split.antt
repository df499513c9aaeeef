-- ===== src/CString/Split.antt =====
-- adb_strtok_r, called until it returns NULL, against splitting a text at its delimiters.
use mathlib.Core.List.{foldl}
use adb_server_project.Common.{
  ℕ, zero, suc, ◌≤◌, ◌<◌, ◌≡◌, refl, ◌≢◌, ◌⊎◌, inl, inr, false, List, [], ◌∷◌, ◌++◌, Option, none,
  some, if◌then◌else◌, ◌==◌, arith, length, Bool-cases,
}
use adb_server_project.CString.{
  elem, Token, token, scan_token, next_token, adb_strtok_r, for_tokens,
}

-- The first field of a text and the others.
abbrev pub split : List ℕ → List ℕ → List ℕ × List (List ℕ)
split delim [] = ([], [])
split delim (c ∷ s) =
    let r = split delim s in if elem c delim then ([], r.0 ∷ r.1) else (c ∷ r.0, r.1)

abbrev pub nonempty : List (List ℕ) → List (List ℕ)
nonempty [] = []
nonempty ([] ∷ fs) = nonempty fs
nonempty ((c ∷ f) ∷ fs) = (c ∷ f) ∷ nonempty fs

-- The fields that are not empty, in order.
abbrev pub words : List ℕ → List ℕ → List (List ℕ)
words delim s = let r = split delim s in nonempty (r.0 ∷ r.1)

-- A text holds no NUL.
abbrev pub IsText : List ℕ → Type 0
IsText [] = Unit {0}
IsText (c ∷ s) = (c ≢ 0) × IsText s

module _ (delim junk : List ℕ) where
  -- What the inner loop finds in a text: its first field, and the text behind it if any.
  abbrev Scanned : List ℕ → Token → Type 0
  Scanned s t =
      ((t ≡ token (split delim s).0 none) × ((split delim s).1 ≡ []))
      ⊎ ((r : List ℕ) × (t ≡ token (split delim s).0 (some (r ++ 0 ∷ junk)))
          × ((split delim s).1 ≡ (split delim r).0 ∷ (split delim r).1)
          × IsText r
          × (length r < length s))

  scan_token-Scanned : (s : List ℕ) → IsText s → Scanned s (scan_token delim (s ++ 0 ∷ junk))
  unfolding scan_token
  scan_token-Scanned [] h = inl (refl, refl)
  scan_token-Scanned (c ∷ s) h = elim (Bool-cases (elem c delim)) [
    | inl e ↦ inr (s, ground arith, ground arith, h.1, omega arith)
    | inr e ↦ elim (scan_token-Scanned s h.1) [
      | inl (t, none_left) ↦ inl (ground arith, ground arith)
      | inr (r, t, fs, ok, shorter) ↦ inr (r, ground arith, ground arith, ok, omega arith)
    ]
  ]

-- Each call takes the next non-empty field, so the loop is a fold over the words.
for_next_token {ℓ} :
    {S : Type ℓ} (delim junk : List ℕ) (body : S → List ℕ → S)
    → elem 0 delim ≡ false
    → (fuel : ℕ) (s : List ℕ) (st : S) → IsText s
    → length s ≤ fuel
    → for_tokens fuel delim body (next_token delim (s ++ 0 ∷ junk)) st
      ≡ some (foldl body st (words delim s))
unfolding for_tokens next_token adb_strtok_r
for_next_token delim junk body no_nul fuel [] st h enough = rw no_nul refl
for_next_token delim junk body no_nul zero (c ∷ s) st h enough = absurd (omega arith)
for_next_token delim junk body no_nul (suc fuel) (c ∷ s) st h enough =
    let nonzero : (c == 0) ≡ false = ground arith in
    elim (Bool-cases (elem c delim)) [
      | inl e ↦ rw e (for_next_token delim junk body no_nul (suc fuel) s st h.1 (omega arith))
      | inr e ↦ elim (scan_token-Scanned delim junk s h.1) [
        | inl (t, none_left) ↦ rw (e, nonzero, t, none_left)
        | inr (r, t, fs, ok, shorter) ↦
            rw (e, nonzero, t, fs)
              (for_next_token delim junk body no_nul fuel r (body st (c ∷ (split delim s).0)) ok
                (omega arith))
      ]
    ]

-- Calling adb_strtok_r on a NUL-terminated text until it returns NULL visits the text's non-empty
-- fields between delimiters, each once and in order, and never reads behind the NUL, whatever the
-- array holds there; as many rounds as the text has bytes are enough.
pub for_tokens-adb_strtok_r {ℓ} :
    {S : Type ℓ} (delim junk : List ℕ) (last : Option (List ℕ)) (body : S → List ℕ → S)
    → elem 0 delim ≡ false
    → (fuel : ℕ) (s : List ℕ) (st : S) → IsText s
    → length s ≤ fuel
    → for_tokens fuel delim body (adb_strtok_r (some (s ++ 0 ∷ junk)) delim last) st
      ≡ some (foldl body st (words delim s))
unfolding adb_strtok_r
for_tokens-adb_strtok_r delim junk last body = for_next_token delim junk body
