-- ===== src/CString/Search.antt =====
-- strchr on a NUL-terminated text: it stays inside, and it finds the first occurrence.
use adb_server_project.Common.{
  ℕ, ◌≡◌, refl, ◌≢◌, ◌⊎◌, inl, inr, List, [], ◌∷◌, ◌++◌, ◌==◌, arith, Bool-cases, Bool, true, false,
  if◌then◌else◌,
}
use adb_server_project.CString.{absent, found, strchr}
use adb_server_project.CString.Split.{IsText}

module _ (c : ℕ) where
  -- The search ends at the NUL, or finds a place with a terminated text behind it; what lies behind
  -- the NUL does not matter.
  abbrev pub Searched : List ℕ → Type 0
  Searched s =
      ((junk : List ℕ) → strchr (s ++ 0 ∷ junk) c ≡ absent s)
      ⊎ ((before : List ℕ) × (after : List ℕ) × ((junk : List ℕ)
            → strchr (s ++ 0 ∷ junk) c ≡ found before (after ++ 0 ∷ junk))
          × (s ≡ before ++ c ∷ after)
          × IsText after)

  pub strchr-Searched : (s : List ℕ) → IsText s → Searched s
  unfolding strchr
  strchr-Searched [] h = inl (λ junk. refl)
  strchr-Searched (d ∷ s) h = elim (Bool-cases (d == c)) [
    | inl e ↦ inr ([], s, λ junk. ground arith, ground arith, h.1)
    | inr e ↦ elim (strchr-Searched s h.1) [
      | inl t ↦ inl (λ junk. ground (arith, t junk))
      | inr (before, after, t, parts, ok) ↦
          inr (d ∷ before, after, λ junk. ground (arith, t junk), ground arith, ok)
    ]
  ]

-- A text without the character `c`.
abbrev pub Without : ℕ → List ℕ → Type 0
Without c [] = Unit {0}
Without c (d ∷ s) = (d ≢ c) × Without c s

pub strchr-found :
    (c : ℕ) (s rest : List ℕ)
    → IsText s
    → Without c s
    → c ≢ 0
    → strchr (s ++ c ∷ rest) c ≡ found s rest
unfolding strchr
strchr-found c [] rest h w nz = ground arith
strchr-found c (d ∷ s) rest h w nz = ground (arith, strchr-found c s rest h.1 w.1 nz)

-- The test for a text without a byte, which computes on a literal.
abbrev pub is_without : ℕ → List ℕ → Bool
is_without c [] = true
is_without c (d ∷ s) = if d == c then false else is_without c s

pub Without-is_without : (c : ℕ) (s : List ℕ) → is_without c s ≡ true → Without c s
Without-is_without c [] e = tt
Without-is_without c (d ∷ s) e = elim (Bool-cases (d == c)) [
  | inl same ↦ let never : false ≡ true = rw same at e in cc
  | inr other ↦ ((λ eq. ground arith), Without-is_without c s (rw other at e))
]
