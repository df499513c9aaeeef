-- ===== src/Sync.antt =====
-- The file client (file_class_sync_client.cpp) and its messages (file_sync_service.h). It talks to the
-- device through one channel of a transport, by the calls sync_connect, sync_write, sync_read,
-- sync_read_to_buffer and sync_disconnect of Catransport: a record of them is a parameter here, and
-- OnTransport fills it with the calls of the running transport. Paths are the codes of their
-- strings without the NUL; a result is an `int`, 0 for success.
pub mod Files
pub mod Requests
pub mod Send
pub mod Receive
pub mod Lists
pub mod Copies
pub mod Commands
pub mod Wire
pub mod OnTransport
pub mod Frames
pub mod FromFile
pub mod Roundtrip
pub mod Digits
pub mod Answers
pub mod Listing
pub mod NewFile
pub mod Apk
pub mod Tests
use adb_server_project.Common.{
  ℕ, ◌+◌, ◌*◌, ◌^◌, Bool, true, false, List, [], ◌∷◌, ◌++◌, Option, none, some, if◌then◌else◌, ◌==◌,
  leb, ltb, drop, length,
}
use adb_server_project.Common.Exec.{Exec}
use adb_server_project.Common.Int.{ℤ, pos, negsuc}
use adb_server_project.Packet.{Status, success, failure, fault}
use adb_server_project.Zip.{read_le_int}
use adb_server_project.Zip.Layout.{le_int}

-- MKID('S','T','A','T') and the others, on a little-endian machine.
abbrev pub mkid : ℕ → ℕ → ℕ → ℕ → ℕ
mkid a b c d = a + b * 256 + c * 65536 + d * 16777216

abbrev pub id_stat : ℕ
id_stat = mkid 83 84 65 84

abbrev pub id_list : ℕ
id_list = mkid 76 73 83 84

abbrev pub id_send : ℕ
id_send = mkid 83 69 78 68

abbrev pub id_recv : ℕ
id_recv = mkid 82 69 67 86

abbrev pub id_dent : ℕ
id_dent = mkid 68 69 78 84

abbrev pub id_done : ℕ
id_done = mkid 68 79 78 69

abbrev pub id_data : ℕ
id_data = mkid 68 65 84 65

abbrev pub id_okay : ℕ
id_okay = mkid 79 75 65 89

abbrev pub id_fail : ℕ
id_fail = mkid 70 65 73 76

abbrev pub id_quit : ℕ
id_quit = mkid 81 85 73 84

abbrev pub sync_data_max : ℕ
sync_data_max = 65536

-- The two words of `syncmsg.req`, `.data` and `.status`.
abbrev pub two_words : ℕ → ℕ → List ℕ
two_words id word = le_int id ++ le_int word

-- What the client asks of the channel that it was given: `read` takes the length and the seconds to
-- wait; `is_file_sync` and `is_closed` are tests of the channel's type; `pause` is adb_sleep_ms, in
-- which the other threads go on.
pub record SyncChannel (S : Type 0) : Type 0 where
  pub connect : Exec S Status
  pub write : List ℕ → Exec S Status
  pub read : ℕ → ℕ → Exec S (Status × List ℕ)
  pub read_to_buffer : ℕ → Exec S (Status × List ℕ)
  pub disconnect : Exec S Status
  pub is_file_sync : S → Bool
  pub is_closed : S → Bool
  pub is_kicked : S → Bool
  pub set_offline : S → S
  pub pause : S → S

abbrev pub ok : ℤ
ok = pos 0

abbrev pub one : ℤ
one = pos 1

abbrev pub minus_one : ℤ
minus_one = negsuc 0

abbrev pub is_ok : ℤ → Bool
is_ok (pos n) = n == 0
is_ok (negsuc n) = false

-- `if (call) { bad } good`, for a call that returns 0 or -1.
abbrev pub attempt : {S A : Type 0} → Exec S Status → Exec S A → Exec S A → Exec S A
attempt m bad good s = elim (m s) [
  | none ↦ none
  | some (success, s') ↦ good s'
  | some (failure, s') ↦ bad s'
  | some (fault, s') ↦ none
]

-- And for a read, which also gives the bytes.
abbrev pub attempt_read :
    {S A : Type 0} → Exec S (Status × List ℕ) → Exec S A → (List ℕ → Exec S A) → Exec S A
attempt_read m bad good s = elim (m s) [
  | none ↦ none
  | some ((success, bytes), s') ↦ good bytes s'
  | some ((failure, bytes), s') ↦ bad s'
  | some ((fault, bytes), s') ↦ none
]

-- A read behind the bytes of a buffer, where those that have come stay even if it fails.
abbrev pub attempt_append :
    {S A : Type 0} → Exec S (Status × List ℕ) → (List ℕ → Exec S A) → (List ℕ → Exec S A) → Exec S A
attempt_append m bad good s = elim (m s) [
  | none ↦ none
  | some ((success, bytes), s') ↦ good bytes s'
  | some ((failure, bytes), s') ↦ bad bytes s'
  | some ((fault, bytes), s') ↦ none
]

-- The word at an offset of a message that was read.
abbrev pub with_word : {S A : Type 0} → ℕ → List ℕ → (ℕ → Exec S A) → Exec S A
with_word k bytes f s = elim (read_le_int (drop k bytes)) [ none ↦ none | some w ↦ f w s ]

-- A length that came as a word and is used as an `int`.
abbrev pub is_negative : ℕ → Bool
is_negative w = leb (2 ^ 31) w

-- `w > n`, as an `int`.
abbrev pub above_int : ℕ → ℕ → Bool
above_int w n = if is_negative w then false else ltb n w
