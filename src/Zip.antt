-- ===== src/Zip.antt =====
-- The zip reader that sync_send uses to check an APK (centraldir.cpp, zipfile.cpp, private.h). The
-- archive is the list of its bytes, and a pointer into it is an offset; a read outside the array is
-- a fault, which is `none`. Words are 32 bits; a signed 32-bit word is negative from 2 ^ 31 on.
pub mod Directory
pub mod File
pub mod Search
pub mod Layout
pub mod Entries
pub mod Members
pub mod Lookup
pub mod Walk
pub mod Extract
pub mod Tests
use adb_server_project.Common.{
  ℕ, ◌+◌, ◌-◌, ◌*◌, ◌%◌, ◌^◌, Bool, true, false, ◌||◌, List, [], ◌∷◌, Option, none, some,
  if◌then◌else◌, ◌==◌, ltb, leb, get_elem?, drop,
}

-- `file_name` is null for an empty name.
pub record Zipentry : Type 0 where
  pub file_name_length : ℕ
  pub file_name : Option ℕ
  pub compression_method : ℕ
  pub uncompressed_size : ℕ
  pub compressed_size : ℕ
  pub content : ℕ

-- `entries` is the linked list from its head.
pub record Zipfile : Type 0 where
  pub buf : List ℕ
  pub bufsize : ℕ
  pub disknum : ℕ
  pub disk_with_central_dir : ℕ
  pub entry_count : ℕ
  pub total_entry_count : ℕ
  pub central_dir_size : ℕ
  pub central_dir_offest : ℕ
  pub comment_len : ℕ
  pub comment : Option ℕ
  pub entries : List Zipentry

abbrev pub cd_signature : ℕ
cd_signature = 0x06054b50

abbrev pub eocd_len : ℕ
eocd_len = 22

abbrev pub max_eocd_search : ℕ
max_eocd_search = 65557

abbrev pub entry_signature : ℕ
entry_signature = 0x02014b50

abbrev pub entry_len : ℕ
entry_len = 46

abbrev pub lfh_size : ℕ
lfh_size = 30

-- The bytes from a pointer on.
unfoldable pub read_le_int : List ℕ → Option ℕ
read_le_int (a ∷ b ∷ c ∷ d ∷ _) = some (a + b * 256 + c * 65536 + d * 16777216)
read_le_int _ = none

unfoldable pub read_le_short : List ℕ → Option ℕ
read_le_short (a ∷ b ∷ _) = some (a + b * 256)
read_le_short _ = none

-- `n < k` for a signed word and a small constant.
abbrev pub less_int : ℕ → ℕ → Bool
less_int n k = leb (2 ^ 31) n || ltb n k

-- The difference of two pointers, as the `ssize_t` of private.h.
abbrev pub minus_int : ℕ → ℕ → ℕ
minus_int a b = (a + 2 ^ 32 - b % 2 ^ 32) % 2 ^ 32

infixl 5 ◌>>=?◌
abbrev pub ◌>>=?◌ : {A B : Type 0} → Option A → (A → Option B) → Option B
none >>=? f = none
some a >>=? f = f a
