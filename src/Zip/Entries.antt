-- ===== src/Zip/Entries.antt =====
-- read_central_directory_entry and the loop over the entries, on the records of the format.
use adb_server_project.Common.{
  ℕ, ◌+◌, ◌^◌, ◌<◌, ◌≡◌, refl, sym, ap, ◌∙◌, false, List, [], ◌∷◌, ◌++◌, none, some, drop, length,
  arith, drop-drop, drop-length-append, length-append, length-drop,
}
use adb_server_project.Packet.{success, failure}
use adb_server_project.Zip.{
  Zipfile, entry_signature, entry_len, lfh_size, read_le_int, read_le_short, less_int, ◌>>=?◌,
}
use adb_server_project.Zip.Layout.{
  le_short, le_int, read_le_short-le_short, read_le_int-le_int, Member, variable_part,
  central_record, IsRecord, record_end, entry_with, entry_at, directory_bytes, entries_at,
  AreMembers,
}
use adb_server_project.Zip.Directory.{read_central_directory_entry, read_entries}

-- A field at a fixed place of a record.
pub short_at :
    {q s : List ℕ} (k w : ℕ) (rest : List ℕ)
    → q ≡ s
    → drop k s ≡ le_short w ++ rest
    → w < 2 ^ 16
    → read_le_short (drop k q) ≡ some w
short_at k w rest e d h = rw (e, d) (read_le_short-le_short w rest h)

pub int_at :
    {q s : List ℕ} (k w : ℕ) (rest : List ℕ)
    → q ≡ s
    → drop k s ≡ le_int w ++ rest
    → w < 2 ^ 32
    → read_le_int (drop k q) ≡ some w
int_at k w rest e d h = rw (e, d) (read_le_int-le_int w rest h)

read_entry_record :
    (file : Zipfile) (p len : ℕ) (m : Member) (rest : List ℕ)
    → drop p file.buf ≡ central_record m rest
    → less_int len entry_len ≡ false
    → IsRecord m
    → read_central_directory_entry file p len ≡ (
        read_le_short (drop 0x1c (drop m.header_offset file.buf)) >>=? λ local_extra.
        some (some (entry_with p m local_extra, record_end p m)))
unfolding read_central_directory_entry
read_entry_record file p len m rest e long h =
    let s = central_record m rest in
    let signature = int_at 0x00 entry_signature (drop 0x4 s) e refl (omega arith) in
    let method = short_at 0x0a m.method (drop 0xc s) e refl h.method_fits in
    let compressed = int_at 0x14 m.compressed (drop 0x18 s) e refl h.compressed_fits in
    let uncompressed = int_at 0x18 m.uncompressed (drop 0x1c s) e refl h.uncompressed_fits in
    let name_length = short_at 0x1c (length m.name) (drop 0x1e s) e refl h.name_fits in
    let extra_length = short_at 0x1e (length m.extra) (drop 0x20 s) e refl h.extra_fits in
    let note_length = short_at 0x20 (length m.note) (drop 0x22 s) e refl h.note_fits in
    let offset = int_at 0x2a m.header_offset (drop 0x2e s) e refl h.offset_fits in
    rw
      (
        long, signature, method, compressed, uncompressed, name_length, extra_length, note_length,
        offset,
      )
      refl

-- Behind the end of a list there is nothing to read.
read_short_behind : (s : List ℕ) → length s < 2 → read_le_short s ≡ none
unfolding read_le_short
read_short_behind [] h = refl
read_short_behind (a ∷ []) h = refl
read_short_behind (a ∷ b ∷ s) h = absurd (omega arith)

-- Where a complete entry of the directory gives a local header of which the archive does not hold
-- all 30 bytes, reading the entry reads outside the archive: the offset is not checked.
pub read_central_directory_entry-fault :
    (file : Zipfile) (p len : ℕ) (m : Member) (rest : List ℕ)
    → drop p file.buf ≡ central_record m rest
    → less_int len entry_len ≡ false
    → IsRecord m
    → length file.buf < m.header_offset + lfh_size
    → read_central_directory_entry file p len ≡ none
read_central_directory_entry-fault file p len m rest e long h outside =
    let there = drop 0x1c (drop m.header_offset file.buf) in
    let short : length there < 2 = omega (
      arith,
      length-drop 0x1c (drop m.header_offset file.buf),
      length-drop m.header_offset file.buf,
    ) in
    read_entry_record file p len m rest e long h
    ∙ ap (λ o. o >>=? λ x. some (some (entry_with p m x, record_end p m)))
        (read_short_behind there short)

length-variable_part :
    (m : Member) → length (variable_part m) ≡ length m.name + length m.extra + length m.note
length-variable_part m =
    length-append (m.name ++ m.extra) m.note
    ∙ ap (λ k. k + length m.note) (length-append m.name m.extra)

-- Behind the record at `p` stands the rest.
pub drop-record_end :
    (buf : List ℕ) (p : ℕ) (m : Member) (rest : List ℕ)
    → drop p buf ≡ central_record m rest
    → drop (record_end p m) buf ≡ rest
drop-record_end buf p m rest e =
    let parts = variable_part m in
    let size = length-variable_part m in
    let whole : p + (entry_len + length parts) ≡ record_end p m = omega (arith, size) in
    ap (λ k. drop k buf) (sym whole)
    ∙ sym (drop-drop p (entry_len + length parts) buf)
    ∙ ap (drop (entry_len + length parts)) e
    ∙ sym (drop-drop entry_len (length parts) (central_record m rest))
    ∙ drop-length-append parts rest

pub read_entries-directory_bytes :
    (ms : List Member) (file : Zipfile) (p len : ℕ) (rest : List ℕ)
    → drop p file.buf ≡ directory_bytes ms rest
    → less_int len entry_len ≡ false
    → AreMembers file.buf ms
    → read_entries (length ms) file p len
      ≡ some (success, record file { entries = entries_at p ms file.entries })
unfolding read_entries
read_entries-directory_bytes [] file p len rest e long h = refl
read_entries-directory_bytes (m ∷ ms) file p len rest e long h =
    let next = drop-record_end file.buf p m (directory_bytes ms rest) e in
    let file' = record file { entries = entry_at p m ∷ file.entries } in
    ap
      (λ r. r >>=? λ r. elim r [
        | none ↦ some (failure, file)
        | some (entry, p') ↦
            read_entries (length ms) (record file { entries = entry ∷ file.entries }) p' len
      ])
      (read_entry_record file p len m (directory_bytes ms rest) e long h.0.fits
        ∙ ap (λ o. o >>=? λ x. some (some (entry_with p m x, record_end p m))) h.0.header_there)
    ∙ read_entries-directory_bytes ms file' (record_end p m) len rest next long h.1
