-- ===== src/Zip/Lookup.antt =====
-- lookup_zipentry on the entries of an archive.
use adb_server_project.Common.{
  ℕ, ◌+◌, ◌≡◌, inl, inr, refl, sym, ap, ◌∙◌, Bool, true, false, List, [], ◌∷◌, ◌++◌, some,
  if◌then◌else◌, ◌==◌, drop, length, arith, Bool-cases, drop-drop, append-nil, append_assoc,
}
use adb_server_project.CString.Split.{IsText}
use adb_server_project.Zip.{Zipentry, Zipfile, entry_len}
use adb_server_project.Zip.File.{init_zipfile, memcmp_eq, name_bytes, lookup_from, lookup_zipentry}
use adb_server_project.Zip.Layout.{
  Member, directory_bytes, entries_at, entry_at, record_end, central_record,
}
use adb_server_project.Zip.Entries.{drop-record_end}
use adb_server_project.Zip.Members.{IsArchive, listed_file, init_zipfile-IsArchive}

unfoldable pub is_prefix : List ℕ → List ℕ → Bool
is_prefix [] s = true
is_prefix (c ∷ name) [] = false
is_prefix (c ∷ name) (d ∷ s) = if d == c then is_prefix name s else false

-- Comparing as many bytes as the name has tells whether the name is a prefix of the text.
memcmp_eq-is_prefix :
    (name s after : List ℕ)
    → IsText name
    → IsText s
    → memcmp_eq (length name) (s ++ 0 ∷ []) (name ++ after) ≡ some (is_prefix name s)
unfolding memcmp_eq is_prefix
memcmp_eq-is_prefix [] s after h t = refl
memcmp_eq-is_prefix (c ∷ name) [] after h t =
    let zero_differs : (0 == c) ≡ false = ground (arith, h.0) in rw zero_differs refl
memcmp_eq-is_prefix (c ∷ name) (d ∷ s) after h t = elim (Bool-cases (d == c)) [
  | inl e ↦ rw e (memcmp_eq-is_prefix name s after h.1 t.1)
  | inr e ↦ rw e refl
]

-- The names of the entries, as they stand in the archive.
abbrev pub HasNames : List ℕ → List Zipentry → List (List ℕ) → Type 0
HasNames buf [] [] = Unit {0}
HasNames buf (e ∷ es) (name ∷ names) =
    ((after : List ℕ) × (name_bytes buf e ≡ name ++ after) × (e.file_name_length ≡ length name))
    × HasNames buf es names
HasNames buf _ _ = ⊥

abbrev pub AreTexts : List (List ℕ) → Type 0
AreTexts [] = Unit {0}
AreTexts (name ∷ names) = IsText name × AreTexts names

-- The entries from the first on whose name is a prefix of the text.
unfoldable pub first_prefix : List ℕ → List Zipentry → List (List ℕ) → List Zipentry
unfolding is_prefix
first_prefix s (e ∷ es) (name ∷ names) =
    let rest = first_prefix s es names in if is_prefix name s then e ∷ es else rest
first_prefix s _ _ = []

lookup_from-first_prefix :
    (buf s : List ℕ) (es : List Zipentry) (names : List (List ℕ))
    → HasNames buf es names
    → AreTexts names
    → IsText s
    → lookup_from buf (s ++ 0 ∷ []) es ≡ some (first_prefix s es names)
unfolding lookup_from first_prefix
lookup_from-first_prefix buf s [] [] h t k = refl
lookup_from-first_prefix buf s [] (name ∷ names) h t k = absurd h
lookup_from-first_prefix buf s (e ∷ es) [] h t k = absurd h
lookup_from-first_prefix buf s (e ∷ es) (name ∷ names) h t k =
    let (after, bytes, size) = h.0 in
    let ih = lookup_from-first_prefix buf s es names h.1 t.1 k in
    let test = memcmp_eq-is_prefix name s after t.0 k in
    elim (Bool-cases (is_prefix name s)) [
      | inl y ↦ rw (bytes, size, test, y) refl
      | inr y ↦ rw (bytes, size, test, y, ih) refl
    ]

-- The names of members, in the order in which the loop puts their entries.
abbrev pub names_of : List Member → List (List ℕ) → List (List ℕ)
names_of [] acc = acc
names_of (m ∷ ms) acc = names_of ms (m.name ∷ acc)

no_name : (s : List ℕ) → (length s == 0) ≡ true → s ≡ []
no_name [] e = refl
no_name (c ∷ s) e = ground arith

-- The bytes of the name, and the text behind it up to the end of the archive.
name_bytes-entry_at :
    (buf : List ℕ) (p : ℕ) (m : Member) (rest : List ℕ)
    → drop p buf ≡ central_record m rest
    → (after : List ℕ) × (name_bytes buf (entry_at p m) ≡ m.name ++ after)
unfolding name_bytes
name_bytes-entry_at buf p m rest e = elim (Bool-cases (length m.name == 0)) [
  | inl z ↦ let empty = no_name m.name z in ([], rw z (sym (append-nil m.name ∙ empty)))
  | inr z ↦
      let behind = m.extra ++ (m.note ++ rest) in
      let there : drop (p + entry_len) buf ≡ m.name ++ behind =
        sym (drop-drop p entry_len buf)
        ∙ ap (drop entry_len) e
        ∙ append_assoc (m.name ++ m.extra) m.note rest
        ∙ append_assoc m.name m.extra (m.note ++ rest) in
      (behind, rw z there)
]

pub entries_at-HasNames :
    (buf : List ℕ) (p : ℕ) (ms : List Member) (rest : List ℕ) (acc : List Zipentry)
    → (names : List (List ℕ)) → drop p buf ≡ directory_bytes ms rest
    → HasNames buf acc names
    → HasNames buf (entries_at p ms acc) (names_of ms names)
entries_at-HasNames buf p [] rest acc names e h = h
entries_at-HasNames buf p (m ∷ ms) rest acc names e h =
    let (after, bytes) = name_bytes-entry_at buf p m (directory_bytes ms rest) e in
    let next = drop-record_end buf p m (directory_bytes ms rest) e in
    entries_at-HasNames buf (record_end p m) ms rest (entry_at p m ∷ acc) (m.name ∷ names) next
      ((after, bytes, refl), h)

-- In such an archive, where no name contains a NUL, looking up a text returns the list from the
-- first entry on whose name is a prefix of the text, and null where no name is one.
pub lookup_zipentry-first_prefix :
    (buf s : List ℕ) (ms : List Member) (h : IsArchive buf ms)
    → AreTexts (names_of ms [])
    → IsText s
    → (file : Zipfile) × (init_zipfile true buf (length buf) ≡ some (some file))
      × (lookup_zipentry file (s ++ 0 ∷ [])
          ≡ some (first_prefix s (entries_at h.offset ms []) (names_of ms [])))
unfolding lookup_zipentry
lookup_zipentry-first_prefix buf s ms h texts t =
    let all = entries_at h.offset ms [] in
    let named = entries_at-HasNames buf h.offset ms h.rest [] [] h.directory_there tt in
    (
      listed_file buf ms h,
      init_zipfile-IsArchive buf ms h,
      lookup_from-first_prefix buf s all (names_of ms []) named texts t,
    )
