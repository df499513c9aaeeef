-- ===== src/Zip/File.antt =====
-- zipfile.cpp: opening an archive, finding and walking its entries, and taking a member out. zlib is
-- a parameter. A pointer to an entry is the part of the list that starts with it; null is the empty
-- list.
use adb_server_project.Common.{
  ℕ, zero, suc, ◌%◌, ◌^◌, Bool, true, false, ◌||◌, List, [], ◌∷◌, ◌++◌, Option, none, some,
  if◌then◌else◌, ◌==◌, ltb, take, drop, length,
}
use adb_server_project.Packet.{Status, success, failure}
use adb_server_project.Zip.{Zipentry, Zipfile, ◌>>=?◌}
use adb_server_project.Zip.Directory.{read_central_dir}

abbrev pub empty_zipfile : List ℕ → ℕ → Zipfile
empty_zipfile bytes size = record {
  buf = bytes;
  bufsize = size % 2 ^ 32;
  disknum = 0;
  disk_with_central_dir = 0;
  entry_count = 0;
  total_entry_count = 0;
  central_dir_size = 0;
  central_dir_offest = 0;
  comment_len = 0;
  comment = none;
  entries = [];
}

abbrev pub success_file : Status × Zipfile → Option Zipfile
success_file (success, file) = some file
success_file (_, file) = none

-- `memory` tells whether malloc gave the file's own memory; the inner `none` is NULL.
unfoldable pub init_zipfile : Bool → List ℕ → ℕ → Option (Option Zipfile)
unfolding read_central_dir
init_zipfile memory bytes size =
    if memory
    then (read_central_dir (empty_zipfile bytes size) >>=? λ r. some (success_file r))
    else some none

-- memcmp(a, b, n) == 0: it reads up to the first difference.
unfoldable pub memcmp_eq : ℕ → List ℕ → List ℕ → Option Bool
memcmp_eq zero left right = some true
memcmp_eq (suc n) (a ∷ left) (b ∷ right) = if a == b then memcmp_eq n left right else some false
memcmp_eq (suc n) _ _ = none

-- memcpy(out, src, n), on the two arrays.
unfoldable pub memcpy : List ℕ → List ℕ → ℕ → Option (List ℕ)
memcpy out src n =
    if ltb (length out) n || ltb (length src) n then none else some (take n src ++ drop n out)

-- The bytes from an entry's name on; nothing can be read from a null pointer.
unfoldable pub name_bytes : List ℕ → Zipentry → List ℕ
name_bytes buf e = elim e.file_name [ none ↦ [] | some p ↦ drop p buf ]

-- `entry_name` is the array of the string, its NUL included.
unfoldable pub lookup_from : List ℕ → List ℕ → List Zipentry → Option (List Zipentry)
unfolding memcmp_eq name_bytes
lookup_from buf entry_name [] = some []
lookup_from buf entry_name (e ∷ next) =
    let rest = lookup_from buf entry_name next in
    memcmp_eq e.file_name_length entry_name (name_bytes buf e) >>=? λ same.
    if same then some (e ∷ next) else rest

unfoldable pub lookup_zipentry : Zipfile → List ℕ → Option (List Zipentry)
unfolding lookup_from
lookup_zipentry file entry_name = lookup_from file.buf entry_name file.entries

unfoldable pub get_zipentry_size : Zipentry → ℕ
get_zipentry_size e = e.uncompressed_size

-- The new array, from a malloc that gave memory.
unfoldable pub get_zipentry_name : List ℕ → Zipentry → Option (List ℕ)
unfolding name_bytes
get_zipentry_name buf e =
    let name = take e.file_name_length (name_bytes buf e) in
    if length name == e.file_name_length then some (name ++ 0 ∷ []) else none

-- zlib: whether inflateInit2 gave Z_OK; what one call inflate(Z_FINISH) writes, and whether it
-- returned Z_STREAM_END.
pub record Zlib : Type 0 where
  pub inflate_init2 : Bool
  pub inflate : List ℕ → ℕ → List ℕ × Bool

module _ (Z : Zlib) where
  unfoldable pub uninflate : List ℕ → ℕ → List ℕ → ℕ → Option (Status × List ℕ)
  unfolding memcpy
  uninflate out unlen src clen =
      if Z.inflate_init2
      then (if ltb (length src) clen
          then none
          else (let r = Z.inflate (take clen src) unlen in
              memcpy out r.0 (length r.0) >>=? λ out'.
              some ((if r.1 then success else failure), out')))
      else some (failure, out)

  -- The status and the output array.
  unfoldable pub decompress_zipentry : List ℕ → Zipentry → List ℕ → ℕ → Option (Status × List ℕ)
  unfolding memcpy uninflate
  decompress_zipentry buf e out bufsize =
      let src = drop e.content buf in
      if e.compression_method == 0
      then (memcpy out src e.uncompressed_size >>=? λ out'. some (success, out'))
      else (if e.compression_method == 8
          then uninflate out bufsize src e.compressed_size
          else some (failure, out))

-- The entry that is returned is also the new cookie.
unfoldable pub iterate_zipfile : Zipfile → List Zipentry → List Zipentry
iterate_zipfile file [] = file.entries
iterate_zipfile file (e ∷ next) = next

-- What dump_zipfile writes: the number of entries, then the names.
pub record Dump : Type 0 where
  pub count : ℕ
  pub names : List (List ℕ)

unfoldable pub dump_names : List ℕ → ℕ → List Zipentry → Option (List (List ℕ))
unfolding name_bytes
dump_names buf zero entries = some []
dump_names buf (suc n) [] = none
dump_names buf (suc n) (e ∷ next) =
    let rest = dump_names buf n next in
    let name = take e.file_name_length (name_bytes buf e) in
    if length name == e.file_name_length then (rest >>=? λ names. some (name ∷ names)) else none

unfoldable pub dump_zipfile : Zipfile → Option Dump
unfolding dump_names
dump_zipfile file = dump_names file.buf file.entry_count file.entries >>=? λ names.
    some (record { count = file.entry_count; names = names })
