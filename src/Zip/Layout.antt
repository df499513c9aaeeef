-- ===== src/Zip/Layout.antt =====
-- The zip format: the record that the central directory has for a member, and the entry that the
-- reader is to make of it.
use adb_server_project.Common.{
  ℕ, ◌+◌, ◌/◌, ◌%◌, ◌^◌, ◌<◌, ◌≡◌, ap, List, [], ◌∷◌, ◌++◌, none, some, if◌then◌else◌, ◌==◌, drop,
  length, arith,
}
use adb_server_project.Zip.{
  Zipentry, entry_signature, entry_len, lfh_size, read_le_int, read_le_short,
}

abbrev pub le_short : ℕ → List ℕ
le_short w = w % 256 ∷ w / 256 % 256 ∷ []

abbrev pub le_int : ℕ → List ℕ
le_int w = w % 256 ∷ w / 256 % 256 ∷ w / 65536 % 256 ∷ w / 16777216 % 256 ∷ []

pub read_le_short-le_short :
    (w : ℕ) (s : List ℕ) → w < 2 ^ 16 → read_le_short (le_short w ++ s) ≡ some w
unfolding read_le_short
read_le_short-le_short w s h = ap some (omega arith)

pub read_le_int-le_int : (w : ℕ) (s : List ℕ) → w < 2 ^ 32 → read_le_int (le_int w ++ s) ≡ some w
unfolding read_le_int
read_le_int-le_int w s h = ap some (omega arith)

-- A member of an archive; `local_extra` is the length of the extra field of its local header.
pub record Member : Type 0 where
  pub version_made_by : ℕ
  pub version_to_extract : ℕ
  pub flags : ℕ
  pub method : ℕ
  pub mod_time : ℕ
  pub mod_date : ℕ
  pub crc : ℕ
  pub compressed : ℕ
  pub uncompressed : ℕ
  pub disk_start : ℕ
  pub internal : ℕ
  pub external : ℕ
  pub header_offset : ℕ
  pub local_extra : ℕ
  pub name : List ℕ
  pub extra : List ℕ
  pub note : List ℕ

abbrev pub variable_part : Member → List ℕ
variable_part m = m.name ++ m.extra ++ m.note

abbrev pub central_record : Member → List ℕ → List ℕ
central_record m rest =
    le_int entry_signature
    ++ le_short m.version_made_by
    ++ le_short m.version_to_extract
    ++ le_short m.flags
    ++ le_short m.method
    ++ le_short m.mod_time
    ++ le_short m.mod_date
    ++ le_int m.crc
    ++ le_int m.compressed
    ++ le_int m.uncompressed
    ++ le_short (length m.name)
    ++ le_short (length m.extra)
    ++ le_short (length m.note)
    ++ le_short m.disk_start
    ++ le_short m.internal
    ++ le_int m.external
    ++ le_int m.header_offset
    ++ variable_part m
    ++ rest

-- The values that the reader keeps fit into their fields.
pub record IsRecord (m : Member) : Type 0 where
  pub method_fits : m.method < 2 ^ 16
  pub compressed_fits : m.compressed < 2 ^ 32
  pub uncompressed_fits : m.uncompressed < 2 ^ 32
  pub offset_fits : m.header_offset < 2 ^ 32
  pub name_fits : length m.name < 2 ^ 16
  pub extra_fits : length m.extra < 2 ^ 16
  pub note_fits : length m.note < 2 ^ 16

-- And the local header is in the archive.
pub record IsMember (buf : List ℕ) (m : Member) : Type 0 where
  pub fits : IsRecord m
  pub header_there : read_le_short (drop 0x1c (drop m.header_offset buf)) ≡ some m.local_extra

-- Where the next record starts.
abbrev pub record_end : ℕ → Member → ℕ
record_end p m = p + entry_len + length m.name + length m.extra + length m.note

abbrev pub entry_with : ℕ → Member → ℕ → Zipentry
entry_with p m local_extra = record {
  file_name_length = length m.name;
  file_name = if length m.name == 0 then none else some (p + entry_len);
  compression_method = m.method;
  uncompressed_size = m.uncompressed;
  compressed_size = m.compressed;
  content = (m.header_offset + lfh_size + length m.name + local_extra) % 2 ^ 32;
}

abbrev pub entry_at : ℕ → Member → Zipentry
entry_at p m = entry_with p m m.local_extra

-- The records of a list of members, one after the other.
abbrev pub directory_bytes : List Member → List ℕ → List ℕ
directory_bytes [] rest = rest
directory_bytes (m ∷ ms) rest = central_record m (directory_bytes ms rest)

-- The list of entries that the loop builds from the front, on top of `acc`.
abbrev pub entries_at : ℕ → List Member → List Zipentry → List Zipentry
entries_at p [] acc = acc
entries_at p (m ∷ ms) acc = entries_at (record_end p m) ms (entry_at p m ∷ acc)

abbrev pub AreMembers : List ℕ → List Member → Type 0
AreMembers buf [] = Unit {0}
AreMembers buf (m ∷ ms) = IsMember buf m × AreMembers buf ms
