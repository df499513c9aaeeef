-- ===== src/Zip/Search.antt =====
-- The search of read_central_dir for the end-of-central-directory record.
use adb_server_project.Common.{
  ℕ, zero, suc, ◌+◌, ◌*◌, ◌≤◌, ◌<◌, ◌≡◌, refl, ap, subst, sym, some-injective, ◌≢◌, ◌⊎◌, inl, inr,
  Bool, true, false, List, [], ◌∷◌, Option, none, some, if◌then◌else◌, ◌==◌, ltb, drop, length,
  arith, length-drop, Bool-cases,
}
use adb_server_project.Zip.{cd_signature, read_le_int}
use adb_server_project.Zip.Directory.{is_eocd, find_eocd}

abbrev pub IsBytes : List ℕ → Type 0
IsBytes [] = Unit {0}
IsBytes (b ∷ s) = (b < 256) × IsBytes s

-- The test for bytes, which computes on a literal.
abbrev pub are_bytes : List ℕ → Bool
are_bytes [] = true
are_bytes (b ∷ s) = let rest = are_bytes s in if ltb b 256 then rest else false

pub IsBytes-are_bytes : (s : List ℕ) → are_bytes s ≡ true → IsBytes s
IsBytes-are_bytes [] e = tt
IsBytes-are_bytes (b ∷ s) e = elim (Bool-cases (ltb b 256)) [
  | inl small ↦ (ground arith, IsBytes-are_bytes s (rw small at e))
  | inr large ↦ let never : false ≡ true = rw large at e in cc
]

drop-IsBytes : (n : ℕ) (s : List ℕ) → IsBytes s → IsBytes (drop n s)
drop-IsBytes zero s h = h
drop-IsBytes (suc n) [] h = tt
drop-IsBytes (suc n) (b ∷ s) h = drop-IsBytes n s h.1

-- The four bytes of the record's signature stand at `p`.
abbrev pub HasSignature : List ℕ → ℕ → Type 0
HasSignature buf p = read_le_int (drop p buf) ≡ some cd_signature

-- The test at a pointer reads inside the array and tells whether the signature is there.
is_eocd-cases :
    (s : List ℕ)
    → IsBytes s
    → 4 ≤ length s
    → ((is_eocd s ≡ some true) × (read_le_int s ≡ some cd_signature))
      ⊎ ((is_eocd s ≡ some false) × (read_le_int s ≢ some cd_signature))
unfolding is_eocd read_le_int
is_eocd-cases [] h l = absurd (omega arith)
is_eocd-cases (a ∷ []) h l = absurd (omega arith)
is_eocd-cases (a ∷ b ∷ []) h l = absurd (omega arith)
is_eocd-cases (a ∷ b ∷ c ∷ []) h l = absurd (omega arith)
is_eocd-cases (a ∷ b ∷ c ∷ d ∷ s) h l =
    let w = a + b * 256 + c * 65536 + d * 16777216 in
    let first : a < 256 = h.0 in
    let second : b < 256 = h.1.0 in
    let third : c < 256 = h.1.1.0 in
    let fourth : d < 256 = h.1.1.1.0 in
    elim (Bool-cases (a == 0x50)) [
      | inl e ↦ elim (Bool-cases (w == cd_signature)) [
        | inl f ↦ inl (rw (e, f) refl, ap some (ground arith))
        | inr f ↦ inr (rw (e, f) refl, λ eq. let same = some-injective eq in ground arith)
      ]
      | inr e ↦ inr (rw e refl, λ eq. let same = some-injective eq in ground arith)
    ]

-- What the search is meant to give.
pub data Searched (buf : List ℕ) (start n : ℕ) : Option ℕ → Type 0 where
  nowhere : ((q : ℕ) → start ≤ q → q < start + n → ¬ HasSignature buf q) → Searched buf start n none
  last_at :
      (p : ℕ)
      → start ≤ p
      → p < start + n
      → HasSignature buf p
      → ((q : ℕ) → p < q → q < start + n → ¬ HasSignature buf q)
      → Searched buf start n (some p)

below_suc : (q start n : ℕ) → q < start + suc n → (q < start + n) ⊎ (q ≡ start + n)
below_suc q start n b = ground arith

wider :
    (buf : List ℕ) (start n : ℕ) {r : Option ℕ}
    → ¬ HasSignature buf (start + n)
    → Searched buf start n r
    → Searched buf start (suc n) r
wider buf start n other (nowhere none_there) = nowhere (λ q a b. elim (below_suc q start n b) [
  | inl below ↦ none_there q a below
  | inr same ↦ subst (λ k. ¬ HasSignature buf k) (sym same) other
])
wider buf start n other (last_at p a b sig later) = last_at p a (omega arith) sig (λ q c d.
    elim (below_suc q start n d) [
      | inl below ↦ later q c below
      | inr same ↦ subst (λ k. ¬ HasSignature buf k) (sym same) other
    ])

-- The search tests one place, the last, before the others.
search_step :
    (buf : List ℕ) (start n : ℕ) (r : Option ℕ)
    → IsBytes buf
    → start + n + 4 ≤ length buf
    → find_eocd buf start n ≡ some r
    → Searched buf start n r
    → (r' : Option ℕ) × (find_eocd buf start (suc n) ≡ some r') × Searched buf start (suc n) r'
unfolding find_eocd
search_step buf start n r h l e s =
    let there = drop (start + n) buf in
    let long : 4 ≤ length there = omega (arith, length-drop (start + n) buf) in
    elim (is_eocd-cases there (drop-IsBytes (start + n) buf h) long) [
      | inl (here, sig) ↦ (
        some (start + n),
        rw here refl,
        last_at (start + n) (omega arith) (omega arith) sig (λ q a b. absurd (omega arith)),
      )
      | inr (other, no_sig) ↦ (r, rw (other, e) refl, wider buf start n no_sig s)
    ]

-- On an array of bytes that goes at least 3 bytes past the last place searched, the search from
-- `start` over `n` places never reads outside the array, and it returns the last of the places
-- where the four bytes of the record's signature stand, or null where they stand at none.
pub find_eocd-Searched :
    (buf : List ℕ) (start n : ℕ)
    → IsBytes buf
    → start + n + 3 ≤ length buf
    → (r : Option ℕ) × (find_eocd buf start n ≡ some r) × Searched buf start n r
unfolding find_eocd
find_eocd-Searched buf start zero h l = (none, refl, nowhere (λ q a b. absurd (omega arith)))
find_eocd-Searched buf start (suc n) h l =
    let (r, e, s) = find_eocd-Searched buf start n h (omega arith) in
    search_step buf start n r h (omega arith) e s

-- Where the search found a place, no later one has the signature.
pub last-Searched :
    {buf : List ℕ} {start n p : ℕ}
    → Searched buf start n (some p)
    → (q : ℕ) → p < q
    → q < start + n
    → ¬ HasSignature buf q
last-Searched (last_at p a b sig later) = later
