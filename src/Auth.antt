-- ===== src/Auth.antt =====
-- The host's keys (adb_auth_host.cpp): the choice of the next key, the signature and the public key.
-- A node of `key_list` is a number; RSA_sign and the file are the platform's.
pub mod Keys
pub mod Tests
use adb_server_project.Common.{
  ℕ, ◌+◌, ◌≡◌, Bool, true, false, List, [], ◌∷◌, ◌++◌, Option, none, some, if◌then◌else◌, ◌==◌, ltb,
  length,
}

abbrev pub auth_token : ℕ
auth_token = 1

abbrev pub auth_signature : ℕ
auth_signature = 2

abbrev pub auth_rsapublickey : ℕ
auth_rsapublickey = 3

-- The loop over the list: the node behind `current`, or null behind the last.
abbrev pub first_of_list : List ℕ → Option ℕ
first_of_list [] = none
first_of_list (k ∷ ks) = some k

pub next_after : List ℕ → ℕ → Option ℕ
next_after [] current = none
next_after (item ∷ rest) current =
    if item == current then first_of_list rest else next_after rest current

unfoldable pub adb_auth_nextkey : List ℕ → Option ℕ → Option ℕ
unfolding next_after
adb_auth_nextkey [] current = none
adb_auth_nextkey (k ∷ ks) none = some k
adb_auth_nextkey (k ∷ ks) (some current) = next_after (k ∷ ks) current

-- The bytes for `data` and the returned length, from the file that load_file found; 0 on failure.
unfoldable pub adb_auth_get_userkey : Option (List ℕ) → ℕ → List ℕ × ℕ
adb_auth_get_userkey none len = ([], 0)
adb_auth_get_userkey (some file) len =
    if ltb len (length file + 1) then ([], 0) else (file ++ 0 ∷ [], length file + 1)
