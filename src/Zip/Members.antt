-- ===== src/Zip/Members.antt =====
-- A whole archive against init_zipfile: the record at the end is found, and every member is listed.
use adb_server_project.Common.{
  ℕ, ◌+◌, ◌-◌, ◌%◌, ◌^◌, ◌≤◌, ◌<◌, ◌≡◌, ◌⊎◌, inl, inr, refl, ap, ◌∙◌, true, false, List, [], ◌∷◌,
  ◌++◌, Option, none, some, if◌then◌else◌, ◌==◌, ltb, drop, length, arith, length-drop, Bool-cases,
}
use adb_server_project.Packet.{Status, success}
use adb_server_project.Zip.{Zipfile, cd_signature, eocd_len, entry_len, less_int, minus_int, ◌>>=?◌}
use adb_server_project.Zip.Directory.{
  find_eocd, read_central_dir_values, read_directory, read_entries, read_central_dir, search_start,
}
use adb_server_project.Zip.File.{init_zipfile, empty_zipfile, success_file}
use adb_server_project.Zip.Search.{
  IsBytes, HasSignature, Searched, nowhere, last_at, find_eocd-Searched,
}
use adb_server_project.Zip.Layout.{
  Member, le_short, le_int, directory_bytes, entries_at, AreMembers, central_record,
}
use adb_server_project.Zip.Entries.{short_at, int_at, read_entries-directory_bytes}

-- The end-of-central-directory record, and the comment behind it.
abbrev pub eocd_bytes : ℕ → ℕ → ℕ → List ℕ → List ℕ
eocd_bytes count size offset comment =
    le_int cd_signature
    ++ le_short 0
    ++ le_short 0
    ++ le_short count
    ++ le_short count
    ++ le_int size
    ++ le_int offset
    ++ le_short (length comment)
    ++ comment

-- An archive of one disk: the record stands `eocd` bytes from the start and ends the file with its
-- comment, in which no signature occurs; the directory starts at `offset`.
pub record IsArchive (buf : List ℕ) (ms : List Member) : Type 0 where
  pub eocd : ℕ
  pub offset : ℕ
  pub size : ℕ
  pub comment : List ℕ
  pub rest : List ℕ
  pub bytes : IsBytes buf
  pub small : length buf < 2 ^ 31
  pub record_there : drop eocd buf ≡ eocd_bytes (length ms) size offset comment
  pub last_signature : (q : ℕ) → eocd < q → q + 4 ≤ length buf → ¬ HasSignature buf q
  pub comment_fits : length comment < 2 ^ 16
  pub count_fits : length ms < 2 ^ 16
  pub size_fits : size < 2 ^ 32
  pub offset_fits : offset < 2 ^ 32
  pub directory_there : drop offset buf ≡ directory_bytes ms rest
  pub members : AreMembers buf ms

-- Where a directory is not empty, one entry fits before the end.
long_directory :
    (buf : List ℕ) (offset : ℕ) (m : Member) (rest : List ℕ)
    → drop offset buf ≡ central_record m rest
    → length buf < 2 ^ 31
    → less_int (minus_int (length buf) offset) entry_len ≡ false
long_directory buf offset m rest e small =
    let size : length (drop offset buf)
        ≡ entry_len + length (drop entry_len (central_record m rest)) =
      rw e (omega arith) in
    let fits : entry_len ≤ length buf - offset = omega (arith, size, length-drop offset buf) in
    let exact : minus_int (length buf) offset ≡ length buf - offset = omega (arith, fits, small) in
    rw exact (ground (arith, fits, small))

read_all :
    (ms : List Member) (file : Zipfile) (p : ℕ) (rest : List ℕ)
    → drop p file.buf ≡ directory_bytes ms rest
    → length file.buf < 2 ^ 31
    → AreMembers file.buf ms
    → read_entries (length ms) file p (minus_int (length file.buf) p)
      ≡ some (success, record file { entries = entries_at p ms file.entries })
unfolding read_entries
read_all [] file p rest e small h = refl
read_all (m ∷ ms) file p rest e small h =
    let long = long_directory file.buf p m (directory_bytes ms rest) e small in
    read_entries-directory_bytes (m ∷ ms) file p (minus_int (length file.buf) p) rest e long h

read_central_dir_found :
    (file file' : Zipfile) (p : ℕ) {r : Status × Zipfile}
    → less_int file.bufsize eocd_len ≡ false
    → find_eocd file.buf (search_start file.bufsize) (file.bufsize - 3 - search_start file.bufsize)
      ≡ some (some p)
    → read_central_dir_values file p (file.bufsize - p) ≡ some (success, file')
    → read_directory success file' ≡ some r
    → read_central_dir file ≡ some r
unfolding read_central_dir
read_central_dir_found file file' p long found values entries = rw (long, found, values) entries

trichotomy : (a b : ℕ) → (a < b) ⊎ ((a ≡ b) ⊎ (b < a))
trichotomy a b = ground arith

module _ (buf : List ℕ) (ms : List Member) (h : IsArchive buf ms) where
  length-eocd_bytes : h.eocd + eocd_len + length h.comment ≡ length buf
  length-eocd_bytes =
      let ends : length (drop h.eocd buf) ≡ eocd_len + length h.comment =
        rw h.record_there (omega arith) in
      omega (arith, ends, length-drop h.eocd buf)

  signature_there : HasSignature buf h.eocd
  signature_there =
      int_at 0 cd_signature (drop 4 (eocd_bytes (length ms) h.size h.offset h.comment))
        h.record_there refl (omega arith)

  start_below : search_start (length buf) ≤ h.eocd
  start_below = ground (arith, length-eocd_bytes, h.comment_fits)

  find_eocd_archive :
      find_eocd buf (search_start (length buf)) (length buf - 3 - search_start (length buf))
      ≡ some (some h.eocd)
  find_eocd_archive =
      let start = search_start (length buf) in
      let low : start ≤ h.eocd = start_below in
      let size = length-eocd_bytes in
      let (r, e, s) =
        find_eocd-Searched buf start (length buf - 3 - start) h.bytes (omega (arith, size, low)) in
      e ∙ ap some (the_last start low size s)
    where
      the_last :
          (start : ℕ) {r : Option ℕ}
          → start ≤ h.eocd
          → h.eocd + eocd_len + length h.comment ≡ length buf
          → Searched buf start (length buf - 3 - start) r
          → r ≡ some h.eocd
      the_last start low size (nowhere none_there) =
          absurd (none_there h.eocd low (omega arith) signature_there)
      the_last start low size (last_at p a b sig later) = elim (trichotomy p h.eocd) [
        | inl below ↦ absurd (later h.eocd below (omega arith) signature_there)
        | inr (inl same) ↦ ap some same
        | inr (inr above) ↦ absurd (h.last_signature p above (omega arith) sig)
      ]

  abbrev fresh_file : Zipfile
  fresh_file = record (empty_zipfile buf 0) { bufsize = length buf }

  abbrev pub archive_file : Zipfile
  archive_file = record {
    buf = buf;
    bufsize = length buf;
    disknum = 0;
    disk_with_central_dir = 0;
    entry_count = length ms;
    total_entry_count = length ms;
    central_dir_size = h.size;
    central_dir_offest = h.offset;
    comment_len = length h.comment;
    comment = if length h.comment == 0 then none else some (h.eocd + eocd_len);
    entries = [];
  }

  values_archive :
      read_central_dir_values fresh_file h.eocd (length buf - h.eocd) ≡ some (success, archive_file)
  unfolding read_central_dir_values
  values_archive =
      let s = eocd_bytes (length ms) h.size h.offset h.comment in
      let e = h.record_there in
      let size = length-eocd_bytes in
      let small = h.small in
      let long : less_int (length buf - h.eocd) eocd_len ≡ false = ground (arith, size, small) in
      let room : ltb (length buf - h.eocd) (eocd_len + length h.comment) ≡ false =
        ground (arith, size) in
      let disk = short_at 0x04 0 (drop 0x06 s) e refl (omega arith) in
      let with_dir = short_at 0x06 0 (drop 0x08 s) e refl (omega arith) in
      let entries = short_at 0x08 (length ms) (drop 0x0a s) e refl h.count_fits in
      let total = short_at 0x0a (length ms) (drop 0x0c s) e refl h.count_fits in
      let dir_size = int_at 0x0c h.size (drop 0x10 s) e refl h.size_fits in
      let dir_offset = int_at 0x10 h.offset (drop 0x14 s) e refl h.offset_fits in
      let comment = short_at 0x14 (length h.comment) (drop 0x16 s) e refl h.comment_fits in
      rw (long, disk, with_dir, entries, total, dir_size, dir_offset, comment, room)
        (elim (Bool-cases (length h.comment == 0)) [ inl z ↦ rw z refl | inr z ↦ rw z refl ])

  abbrev pub listed_file : Zipfile
  listed_file = record archive_file { entries = entries_at h.offset ms [] }

  directory_archive : read_directory success archive_file ≡ some (success, listed_file)
  unfolding read_directory
  directory_archive =
      let same : (length ms == length ms) ≡ true = ground arith in
      rw same (read_all ms archive_file h.offset h.rest h.directory_there h.small h.members)

  -- On an archive of one disk, of less than 2 ^ 31 bytes, whose directory has a record for each of the
  -- members and that ends with the end record and a comment in which no signature occurs,
  -- init_zipfile with memory for the file returns the file with the values of the end record and an
  -- entry for every member, with its name, sizes, method and data, the last member first.
  pub init_zipfile-IsArchive : init_zipfile true buf (length buf) ≡ some (some listed_file)
  unfolding init_zipfile read_central_dir
  init_zipfile-IsArchive =
      let small = h.small in
      let size = length-eocd_bytes in
      let whole : length buf % 2 ^ 32 ≡ length buf = omega (arith, small) in
      let fresh : empty_zipfile buf (length buf) ≡ fresh_file =
        ap (λ k. record (empty_zipfile buf 0) { bufsize = k }) whole in
      let long : less_int (length buf) eocd_len ≡ false = ground (arith, size, small) in
      let read =
        read_central_dir_found fresh_file archive_file h.eocd long find_eocd_archive values_archive
          directory_archive in
      ap (λ f. read_central_dir f >>=? λ r. some (success_file r)) fresh
      ∙ ap (λ o. o >>=? λ r. some (success_file r)) read
