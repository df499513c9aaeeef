-- ===== src/Sync/Send.antt =====
-- sync_send and sync_send_buffer: a file or a buffer is sent to a remote path.
use adb_server_project.Common.{
  ℕ, zero, suc, ◌+◌, ◌/◌, ◌%◌, ◌-◌, ◌^◌, Bool, not, List, [], ◌∷◌, ◌++◌, Option, none, some,
  if◌then◌else◌, ◌==◌, ltb, length,
}
use adb_server_project.Common.Exec.{Exec, pure}
use adb_server_project.Common.Int.{ℤ}
use adb_server_project.CString.{codes}
use adb_server_project.Packet.{Status, failure}
use adb_server_project.Zip.{Zipentry, Zipfile, ◌>>=?◌}
use adb_server_project.Zip.File.{init_zipfile, lookup_zipentry}
use adb_server_project.Sync.{
  SyncChannel, id_send, id_done, id_okay, id_fail, two_words, ok, one, minus_one, attempt,
  attempt_read, with_word, above_int, is_negative,
}
use adb_server_project.Sync.Files.{
  Files, s_rdonly, seek_end, seek_set, adb_file_open, adb_file_lseek, adb_file_read,
}
use adb_server_project.Sync.Requests.{give_up, write_data_buffer, write_data_file}

-- The digits of "%d"; the number itself is enough fuel.
unfoldable pub decimal_digits : ℕ → ℕ → List ℕ → List ℕ
decimal_digits zero n acc = acc
decimal_digits (suc fuel) n acc =
    let acc' = (48 + n % 10) ∷ acc in
    let more = decimal_digits fuel (n / 10) acc' in if n / 10 == 0 then acc' else more

-- snprintf(tmp, sizeof(tmp), ",%d", mode).
unfoldable pub mode_text : ℕ → List ℕ
unfolding decimal_digits
mode_text mode =
    if is_negative mode
    then 44 ∷ 45 ∷ decimal_digits (suc (2 ^ 32 - mode)) (2 ^ 32 - mode) []
    else 44 ∷ decimal_digits (suc mode) mode []

abbrev pub is_reg : ℕ → Bool
is_reg mode = mode / 4096 % 16 == 8

abbrev pub is_dir : ℕ → Bool
is_dir mode = mode / 4096 % 16 == 4

-- What the test of an APK gives: the file's bytes, or the result to return.
pub data Verified : Type 0 where
  bytes : List ℕ → Verified
  refused : ℤ → Verified

abbrev pub manifest : List ℕ
manifest = codes "AndroidManifest.xml"

-- The found entry is only tested for null.
abbrev pub verdict : List ℕ → List Zipentry → Verified
verdict file_buffer [] = refused one
verdict file_buffer (e ∷ rest) = bytes file_buffer

unfoldable pub check_manifest : List ℕ → Option Zipfile → Option Verified
unfolding lookup_zipentry
check_manifest file_buffer none = some (refused one)
check_manifest file_buffer (some zip) =
    lookup_zipentry zip (manifest ++ 0 ∷ []) >>=? λ found. some (verdict file_buffer found)

-- What is done with the bytes that were read, where `size` is the size of the file.
unfoldable pub verify_bytes : Bool → List ℕ → ℕ → Option Verified
unfolding init_zipfile check_manifest
verify_bytes memory file_buffer size =
    if not memory
    then some (refused one)
    else (if not (length file_buffer == size)
        then some (refused one)
        else init_zipfile memory file_buffer size >>=? check_manifest file_buffer)

-- The part of sync_send under `verifyApk`; a read outside the archive is `none`.
unfoldable pub verify_apk : List ℕ → Files → Option Verified
unfolding adb_file_open adb_file_lseek adb_file_read verify_bytes
verify_apk lpath d = elim (adb_file_open lpath s_rdonly d).0 [
  | none ↦ some (refused minus_one)
  | some f ↦
      let (size, at_end) = adb_file_lseek (some f) 0 seek_end in
      let (_, at_start) = adb_file_lseek at_end 0 seek_set in
      verify_bytes d.memory (adb_file_read at_start size).0 size
]

module _ (S : Type 0) (C : SyncChannel S) where
  -- What is done with the answer to ID_DONE.
  unfoldable pub handle_status : List ℕ → Exec S ℤ
  handle_status status = with_word 0 status (λ id.
      if id == id_okay
      then pure ok
      else (if id == id_fail
          then with_word 4 status (λ msglen.
            if is_negative msglen
            then pure minus_one
            else attempt_read (C.read (if above_int msglen 256 then 256 else msglen) 2)
                (pure minus_one) (λ text. pure minus_one))
          else pure minus_one))

  unfoldable pub read_status : Exec S ℤ
  unfolding handle_status
  read_status = attempt_read (C.read 8 0) (pure minus_one) handle_status

  -- What follows the data: ID_DONE with the time, and the answer.
  unfoldable pub finish_send : ℕ → Exec S ℤ
  unfolding give_up read_status
  finish_send mtime = attempt (C.write (two_words id_done mtime)) (give_up S C) read_status

  -- The request ID_SEND: the path and the mode.
  unfoldable pub send_request : List ℕ → ℕ → Exec S Status
  unfolding mode_text
  send_request rpath mode =
      attempt (C.write (two_words id_send (length rpath + length (mode_text mode)))) (pure failure)
        (attempt (C.write rpath) (pure failure) (C.write (mode_text mode)))

  -- The result of sending the data is not looked at.
  abbrev pub ignoring : Exec S ℤ → Exec S ℤ → Exec S ℤ
  ignoring m k s = elim (m s) [ none ↦ none | some (_, s') ↦ k s' ]

  -- sync_send behind the test of the file; `file_buffer` is null where the file is not tested.
  unfoldable pub send_verified : List ℕ → List ℕ → ℕ → ℕ → Option (List ℕ) → Files → Exec S ℤ
  unfolding send_request give_up write_data_buffer write_data_file finish_send
  send_verified lpath rpath mtime mode file_buffer d =
      attempt (send_request rpath mode) (give_up S C) (elim file_buffer [
        | some buffer ↦ ignoring (write_data_buffer S C buffer (length buffer)) (finish_send mtime)
        | none ↦
            if is_reg mode
            then ignoring (write_data_file S C lpath d) (finish_send mtime)
            else give_up S C
      ])

  unfoldable pub sync_send : List ℕ → List ℕ → ℕ → ℕ → Bool → Files → Exec S ℤ
  unfolding give_up verify_apk send_verified
  sync_send lpath rpath mtime mode verify d =
      if ltb 1024 (length rpath)
      then give_up S C
      else (if verify
          then elim (verify_apk lpath d) [
            | none ↦ λ s. none
            | some (refused r) ↦ pure r
            | some (bytes buffer) ↦ send_verified lpath rpath mtime mode (some buffer) d
          ]
          else send_verified lpath rpath mtime mode none d)

  -- `buffer` is null, or an array; `size` is the length as a word.
  unfoldable pub sync_send_buffer : Option (List ℕ) → ℕ → List ℕ → ℕ → ℕ → Exec S ℤ
  unfolding give_up send_request write_data_buffer finish_send
  sync_send_buffer buffer size rpath mtime mode =
      if ltb 1024 (length rpath)
      then give_up S C
      else attempt (send_request rpath mode) (give_up S C) (elim buffer [
        | some file_buffer ↦ ignoring (write_data_buffer S C file_buffer size) (finish_send mtime)
        | none ↦ give_up S C
      ])
