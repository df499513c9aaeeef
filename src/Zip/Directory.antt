-- ===== src/Zip/Directory.antt =====
-- centraldir.cpp: the search for the end-of-central-directory record, its values, and the loop over
-- the entries of the directory.
use adb_server_project.Common.{
  ℕ, zero, suc, ◌+◌, ◌-◌, ◌%◌, ◌^◌, Bool, false, ◌||◌, not, List, [], ◌∷◌, Option, none, some,
  if◌then◌else◌, ◌==◌, ltb, drop,
}
use adb_server_project.Packet.{Status, success, failure}
use adb_server_project.Zip.{
  Zipentry, Zipfile, cd_signature, eocd_len, max_eocd_search, entry_signature, entry_len, lfh_size,
  read_le_int, read_le_short, less_int, minus_int, ◌>>=?◌,
}

-- `*p == 0x50 && read_le_int(p) == CD_SIGNATURE`, on the bytes from `p` on.
unfoldable pub is_eocd : List ℕ → Option Bool
unfolding read_le_int
is_eocd [] = none
is_eocd (b ∷ p) =
    if b == 0x50 then (read_le_int (b ∷ p) >>=? λ w. some (w == cd_signature)) else some false

-- What the loop down to `start` leaves in `eocd`; null where it found nothing.
unfoldable pub find_eocd : List ℕ → ℕ → ℕ → Option (Option ℕ)
unfolding is_eocd
find_eocd buf start zero = some none
find_eocd buf start (suc n) =
    let rest = find_eocd buf start n in
    is_eocd (drop (start + n) buf) >>=? λ here. if here then some (some (start + n)) else rest

-- The file with the values of the record at `eocd`, `len` bytes before the end.
unfoldable pub read_central_dir_values : Zipfile → ℕ → ℕ → Option (Status × Zipfile)
unfolding read_le_int read_le_short
read_central_dir_values file eocd len =
    if less_int len eocd_len
    then some (failure, file)
    else (let p = drop eocd file.buf in
        read_le_short (drop 0x04 p) >>=? λ disknum. read_le_short (drop 0x06 p) >>=? λ disk_with.
        read_le_short (drop 0x08 p) >>=? λ entries. read_le_short (drop 0x0a p) >>=? λ total.
        read_le_int (drop 0x0c p) >>=? λ size. read_le_int (drop 0x10 p) >>=? λ offset.
        read_le_short (drop 0x14 p) >>=? λ comment_len.
        let file' = record file {
          disknum = disknum;
          disk_with_central_dir = disk_with;
          entry_count = entries;
          total_entry_count = total;
          central_dir_size = size;
          central_dir_offest = offset;
          comment_len = comment_len;
        } in
        if comment_len == 0
        then some (success, file')
        else (if ltb len (eocd_len + comment_len)
            then some (failure, file')
            else some (success, record file' { comment = some (eocd + eocd_len) })))

-- The entry at `p` and the offset of the next one; the inner `none` is -1. The values that the code
-- reads and never uses lie before the last one here, so they cannot fault where it does not.
unfoldable pub read_central_directory_entry : Zipfile → ℕ → ℕ → Option (Option (Zipentry × ℕ))
unfolding read_le_int read_le_short
read_central_directory_entry file p len =
    if less_int len entry_len
    then some none
    else (let q = drop p file.buf in
        read_le_int q >>=? λ signature.
        if not (signature == entry_signature)
        then some none
        else (read_le_short (drop 0x0a q) >>=? λ method.
            read_le_int (drop 0x14 q) >>=? λ compressed.
            read_le_int (drop 0x18 q) >>=? λ uncompressed.
            read_le_short (drop 0x1c q) >>=? λ name_length.
            read_le_short (drop 0x1e q) >>=? λ extra_length.
            read_le_short (drop 0x20 q) >>=? λ comment_length.
            read_le_int (drop 0x2a q) >>=? λ header_offset.
            read_le_short (drop 0x1c (drop header_offset file.buf)) >>=? λ local_extra. some (
              some (
                record {
                  file_name_length = name_length;
                  file_name = if name_length == 0 then none else some (p + entry_len);
                  compression_method = method;
                  uncompressed_size = uncompressed;
                  compressed_size = compressed;
                  content = (header_offset + lfh_size + name_length + local_extra) % 2 ^ 32;
                },
                p + entry_len + name_length + extra_length + comment_length,
              ))))

-- The loop over `n` entries; `len` stays what it was before the loop.
unfoldable pub read_entries : ℕ → Zipfile → ℕ → ℕ → Option (Status × Zipfile)
unfolding read_central_directory_entry
read_entries zero file p len = some (success, file)
read_entries (suc n) file p len = read_central_directory_entry file p len >>=? λ r. elim r [
  | none ↦ some (failure, file)
  | some (entry, p') ↦ read_entries n (record file { entries = entry ∷ file.entries }) p' len
]

abbrev pub search_start : ℕ → ℕ
search_start bufsize = if ltb max_eocd_search bufsize then bufsize - max_eocd_search else 0

abbrev pub is_spanning : Zipfile → Bool
is_spanning file =
    not (file.disknum == 0)
    || not (file.disk_with_central_dir == 0)
    || not (file.entry_count == file.total_entry_count)

-- What follows once the record's values are read.
unfoldable pub read_directory : Status → Zipfile → Option (Status × Zipfile)
unfolding read_entries
read_directory success file =
    if is_spanning file
    then some (failure, file)
    else read_entries file.total_entry_count file file.central_dir_offest
        (minus_int file.bufsize file.central_dir_offest)
read_directory _ file = some (failure, file)

unfoldable pub read_central_dir : Zipfile → Option (Status × Zipfile)
unfolding find_eocd read_central_dir_values read_directory
read_central_dir file =
    if less_int file.bufsize eocd_len
    then some (failure, file)
    else (let start = search_start file.bufsize in
        find_eocd file.buf start (file.bufsize - 3 - start) >>=? λ eocd. elim eocd [
          | none ↦ some (failure, file)
          | some p ↦ read_central_dir_values file p (file.bufsize - p) >>=? λ (status, file').
              read_directory status file'
        ])
