-- ===== src/Zip/Tests.antt =====
-- A small archive with one stored member, on which the theorems are applied.
use adb_server_project.Common.{
  ℕ, ◌+◌, ◌≤◌, ◌^◌, ◌<◌, ◌≡◌, refl, subst, true, List, [], ◌∷◌, ◌++◌, Option, none, some, arith,
  length, replicate, drop,
}
use adb_server_project.Packet.{success}
use adb_server_project.Zip.{Zipentry, Zipfile, read_le_short}
use adb_server_project.Zip.Directory.{find_eocd, read_central_directory_entry}
use adb_server_project.Zip.File.{
  Zlib, init_zipfile, lookup_zipentry, decompress_zipentry, dump_zipfile,
}
use adb_server_project.Zip.Search.{
  IsBytes, IsBytes-are_bytes, HasSignature, Searched, find_eocd-Searched, last-Searched,
}
use adb_server_project.Zip.Layout.{Member, IsRecord, central_record, directory_bytes, entry_at}
use adb_server_project.Zip.Entries.{read_central_directory_entry-fault}
use adb_server_project.Zip.Members.{IsArchive, eocd_bytes, listed_file, init_zipfile-IsArchive}
use adb_server_project.Zip.Lookup.{AreTexts, names_of, first_prefix, lookup_zipentry-first_prefix}
use adb_server_project.Zip.Walk.{walk, walk-dump_zipfile}
use adb_server_project.Zip.Extract.{IsZlib, deflated, decompress_zipentry-HasContents}

abbrev member_at : ℕ → Member
member_at offset = record {
  version_made_by = 20;
  version_to_extract = 20;
  flags = 0;
  method = 0;
  mod_time = 100;
  mod_date = 300;
  crc = 70000;
  compressed = 3;
  uncompressed = 3;
  disk_start = 0;
  internal = 0;
  external = 0;
  header_offset = offset;
  local_extra = 0;
  name = 65 ∷ 66 ∷ [];
  extra = 7 ∷ [];
  note = [];
}

abbrev member : Member
member = member_at 0

abbrev pub members : List Member
members = member ∷ []

abbrev ending : List ℕ
ending = eocd_bytes 1 47 35 (72 ∷ 105 ∷ [])

abbrev pub archive : List ℕ
archive = replicate 30 0 ++ (65 ∷ 66 ∷ 1 ∷ 2 ∷ 3 ∷ directory_bytes members ending)

pub archive-IsBytes : IsBytes archive
archive-IsBytes = IsBytes-are_bytes archive refl

find_eocd-Searched_example :
    (r : Option ℕ) × (find_eocd archive 0 105 ≡ some r) × Searched archive 0 105 r
find_eocd-Searched_example = find_eocd-Searched archive 0 105 archive-IsBytes (omega arith)

found_at : find_eocd archive 0 105 ≡ some (some 84)
unfolding find_eocd
found_at = refl

pub one_signature : (q : ℕ) → 84 < q → q + 4 ≤ length archive → ¬ HasSignature archive q
one_signature q a b =
    let (r, e, s) = find_eocd-Searched archive 0 105 archive-IsBytes (omega arith) in
    let same : r ≡ some 84 = ground (arith, e, found_at) in
    let t : Searched archive 0 105 (some 84) = subst (Searched archive 0 105) same s in
    last-Searched t q a (omega arith)

pub member_at-IsRecord : (offset : ℕ) → offset < 2 ^ 32 → IsRecord (member_at offset)
member_at-IsRecord offset h = record {
  method_fits = omega arith;
  compressed_fits = omega arith;
  uncompressed_fits = omega arith;
  offset_fits = h;
  name_fits = omega arith;
  extra_fits = omega arith;
  note_fits = omega arith;
}

pub header : read_le_short (drop 0x1c (drop 0 archive)) ≡ some 0
unfolding read_le_short
header = refl

unfoldable pub small_archive : IsArchive archive members
small_archive = record {
  eocd = 84;
  offset = 35;
  size = 47;
  comment = 72 ∷ 105 ∷ [];
  rest = ending;
  bytes = archive-IsBytes;
  small = omega arith;
  record_there = refl;
  last_signature = one_signature;
  comment_fits = omega arith;
  count_fits = omega arith;
  size_fits = omega arith;
  offset_fits = omega arith;
  directory_there = refl;
  members = (record { fits = member_at-IsRecord 0 (omega arith); header_there = header }, tt);
}

init_zipfile-IsArchive_example :
    init_zipfile true archive (length archive)
    ≡ some (some (listed_file archive members small_archive))
init_zipfile-IsArchive_example = init_zipfile-IsArchive archive members small_archive

pub members-AreTexts : AreTexts (names_of members [])
members-AreTexts = (((λ e. ground arith), ((λ e. ground arith), tt)), tt)

-- The name "AB" is a prefix of the text "ABC", which is looked up.
lookup_zipentry-first_prefix_example :
    (file : Zipfile) × (init_zipfile true archive (length archive) ≡ some (some file))
    × (lookup_zipentry file (65 ∷ 66 ∷ 67 ∷ 0 ∷ []) ≡ some (entry_at 35 member ∷ []))
unfolding first_prefix small_archive
lookup_zipentry-first_prefix_example =
    lookup_zipentry-first_prefix archive (65 ∷ 66 ∷ 67 ∷ []) members small_archive members-AreTexts
      ((λ e. ground arith), ((λ e. ground arith), ((λ e. ground arith), tt)))

walk-dump_zipfile_example :
    (file : Zipfile) × (init_zipfile true archive (length archive) ≡ some (some file))
    × (walk 2 file [] ≡ entry_at 35 member ∷ [])
    × (dump_zipfile file ≡ some (record { count = 1; names = (65 ∷ 66 ∷ []) ∷ [] }))
unfolding small_archive
walk-dump_zipfile_example = walk-dump_zipfile archive members small_archive 2 (omega arith)

-- A packer that puts the bytes x and z before the contents.
abbrev plain_zlib : Zlib
plain_zlib = record { inflate_init2 = true; inflate = λ src n. (drop 2 src, true) }

plain_zlib-IsZlib : IsZlib plain_zlib
plain_zlib-IsZlib = record {
  deflate = λ bytes. b'x' ∷ b'z' ∷ bytes;
  ready = refl;
  undoes = λ bytes n h. refl;
}

-- The member "xz\1" of three bytes holds one deflated byte.
abbrev packed : Zipentry
packed = record (entry_at 1 member) {
  content = 2;
  compression_method = 8;
  compressed_size = 3;
  uncompressed_size = 1;
}

decompress_zipentry-HasContents_example :
    decompress_zipentry plain_zlib (0 ∷ 0 ∷ b'x' ∷ b'z' ∷ 1 ∷ 7 ∷ []) packed (9 ∷ 9 ∷ []) 2
    ≡ some (success, 1 ∷ 9 ∷ [])
unfolding plain_zlib-IsZlib
decompress_zipentry-HasContents_example =
    decompress_zipentry-HasContents plain_zlib plain_zlib-IsZlib (0 ∷ 0 ∷ b'x' ∷ b'z' ∷ 1 ∷ 7 ∷ [])
      (1 ∷ []) (9 ∷ 9 ∷ []) packed 2 (deflated (7 ∷ []) refl refl refl) (omega arith) (omega arith)

abbrev bad_file : Zipfile
bad_file = record {
  buf = central_record (member_at 500) [];
  bufsize = 49;
  disknum = 0;
  disk_with_central_dir = 0;
  entry_count = 1;
  total_entry_count = 1;
  central_dir_size = 0;
  central_dir_offest = 0;
  comment_len = 0;
  comment = none;
  entries = [];
}

read_central_directory_entry-fault_example : read_central_directory_entry bad_file 0 49 ≡ none
read_central_directory_entry-fault_example =
    read_central_directory_entry-fault bad_file 0 49 (member_at 500) [] refl refl
      (member_at-IsRecord 500 (omega arith)) (omega arith)
