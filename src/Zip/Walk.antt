-- ===== src/Zip/Walk.antt =====
-- iterate_zipfile and dump_zipfile on the entries of an archive.
use adb_server_project.Common.{
  ℕ, zero, suc, ◌+◌, ◌<◌, ◌≡◌, refl, sym, ap, ◌∙◌, true, List, [], ◌∷◌, some, ◌==◌, length, arith,
  take-length-append,
}
use adb_server_project.Zip.{Zipentry, Zipfile, ◌>>=?◌}
use adb_server_project.Zip.File.{init_zipfile, iterate_zipfile, dump_names, dump_zipfile}
use adb_server_project.Zip.Layout.{Member, entries_at, entry_at, record_end}
use adb_server_project.Zip.Members.{IsArchive, listed_file, init_zipfile-IsArchive}
use adb_server_project.Zip.Lookup.{HasNames, names_of, entries_at-HasNames}

-- The calls `while ((e = iterate_zipfile(file, &cookie)) != NULL)` from a null cookie: the entries
-- that they return. Fuel is the number of calls.
unfoldable pub walk : ℕ → Zipfile → List Zipentry → List Zipentry
unfolding iterate_zipfile
walk zero file cookie = []
walk (suc n) file cookie = elim (iterate_zipfile file cookie) [
  | [] ↦ []
  | e ∷ next ↦ e ∷ walk n file (e ∷ next)
]

walk_next :
    (file : Zipfile) (e : Zipentry) (next : List Zipentry) (n : ℕ)
    → length next < n
    → walk n file (e ∷ next) ≡ next
unfolding walk iterate_zipfile
walk_next file e next zero h = absurd (omega arith)
walk_next file e [] (suc n) h = refl
walk_next file e (e' ∷ next) (suc n) h = ap (◌∷◌ e') (walk_next file e' next n (omega arith))

walk-entries :
    (file : Zipfile) (n : ℕ) (es : List Zipentry)
    → file.entries ≡ es
    → length es < n
    → walk n file [] ≡ es
unfolding walk iterate_zipfile
walk-entries file zero es e h = absurd (omega arith)
walk-entries file (suc n) es e h =
    ap (λ xs. elim xs [ [] ↦ [] | x ∷ next ↦ x ∷ walk n file (x ∷ next) ]) e ∙ first_call es h
  where
    first_call :
        (es : List Zipentry)
        → length es < suc n
        → elim es [ [] ↦ [] | x ∷ next ↦ x ∷ walk n file (x ∷ next) ] ≡ es
    first_call [] h = refl
    first_call (x ∷ next) h = ap (◌∷◌ x) (walk_next file x next n (omega arith))

dump_names-HasNames :
    (buf : List ℕ) (es : List Zipentry) (names : List (List ℕ))
    → HasNames buf es names
    → dump_names buf (length es) es ≡ some names
unfolding dump_names
dump_names-HasNames buf [] [] h = refl
dump_names-HasNames buf [] (name ∷ names) h = absurd h
dump_names-HasNames buf (e ∷ es) [] h = absurd h
dump_names-HasNames buf (e ∷ es) (name ∷ names) h =
    let (after, bytes, size) = h.0 in
    let ih = dump_names-HasNames buf es names h.1 in
    let whole = take-length-append name after in
    let same : (length name == length name) ≡ true = ground arith in
    rw (bytes, size, whole, same, ih) refl

length-entries_at :
    (p : ℕ) (ms : List Member) (acc : List Zipentry)
    → length (entries_at p ms acc) ≡ length ms + length acc
length-entries_at p [] acc = omega arith
length-entries_at p (m ∷ ms) acc =
    omega (arith, length-entries_at (record_end p m) ms (entry_at p m ∷ acc))

-- In such an archive, more calls of iterate_zipfile than there are members, from a null cookie and
-- up to the first null result, return every entry once in the order of the list, and dump_zipfile
-- writes the number of members and their names in that order, with no null pointer followed.
pub walk-dump_zipfile :
    (buf : List ℕ) (ms : List Member) (h : IsArchive buf ms) (n : ℕ)
    → length ms < n
    → (file : Zipfile) × (init_zipfile true buf (length buf) ≡ some (some file))
      × (walk n file [] ≡ entries_at h.offset ms [])
      × (dump_zipfile file ≡ some (record { count = length ms; names = names_of ms [] }))
unfolding dump_zipfile
walk-dump_zipfile buf ms h n enough =
    let all = entries_at h.offset ms [] in
    let named = entries_at-HasNames buf h.offset ms h.rest [] [] h.directory_there tt in
    let file = listed_file buf ms h in
    let size : length all ≡ length ms = omega (arith, length-entries_at h.offset ms []) in
    (
      file,
      init_zipfile-IsArchive buf ms h,
      walk-entries file n all refl (omega (arith, size)),
      ap
            (λ k.
              dump_names buf k all >>=? λ names. some (record { count = length ms; names = names }))
            (sym size)
          ∙ ap (λ o. o >>=? λ names. some (record { count = length ms; names = names }))
              (dump_names-HasNames buf all (names_of ms []) named),
    )
