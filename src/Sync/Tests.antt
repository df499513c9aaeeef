-- ===== src/Sync/Tests.antt =====
-- The theorems on any channel, applied to a line whose bytes are lists.
pub mod Live
use adb_server_project.Common.{
  ℕ, ◌≡◌, refl, true, false, List, [], ◌∷◌, ◌++◌, none, some, if◌then◌else◌, take, drop, arith,
}
use adb_server_project.Common.Exec.{Exec}
use adb_server_project.CString.{codes, strcmp_eq}
use adb_server_project.Packet.{Status, success}
use adb_server_project.Zip.Tests.{archive, members, small_archive, members-AreTexts}
use adb_server_project.Zip.Lookup.{first_prefix}
use adb_server_project.Sync.{
  SyncChannel, ok, one, minus_one, two_words, id_data, id_done, id_recv, id_list,
}
use adb_server_project.Sync.Files.{Files, made}
use adb_server_project.Sync.Requests.{write_data_buffer, write_data_file, sync_ls, data_frame}
use adb_server_project.Sync.Send.{sync_send, sync_send_buffer}
use adb_server_project.Sync.Receive.{sync_recv, sync_recv_buffer}
use adb_server_project.Sync.Copies.{copy_remote_dir_local, with_slash}
use adb_server_project.Sync.Wire.{IsWire}
use adb_server_project.Sync.Frames.{join, ArePieces}
use adb_server_project.Sync.FromFile.{write_data_file-buffer}
use adb_server_project.Sync.Roundtrip.{write_data_buffer-sync_recv_buffer}
use adb_server_project.Sync.Answers.{refused, answer_bytes, send_bytes, sync_send_buffer-Answer}
use adb_server_project.Sync.Listing.{
  Dent, listing_bytes, sync_ls-listing, copy_remote_dir_local-listing,
}
use adb_server_project.Sync.NewFile.{sync_recv-absent}
use adb_server_project.Sync.Apk.{sync_send-IsArchive}

record Line : Type 0 where
  got : List ℕ
  coming : List ℕ

abbrev line : List ℕ → Line
line coming = record { got = []; coming = coming }

abbrev read_line : ℕ → Exec Line (Status × List ℕ)
read_line n l = some ((success, take n l.coming), record l { coming = drop n l.coming })

abbrev channel : SyncChannel Line
channel = record {
  connect = λ l. some (success, l);
  write = λ bytes l. some (success, record l { got = l.got ++ bytes });
  read = λ n w. read_line n;
  read_to_buffer = read_line;
  disconnect = λ l. some (success, l);
  is_file_sync = λ l. true;
  is_closed = λ l. true;
  is_kicked = λ l. false;
  set_offline = λ l. l;
  pause = λ l. l;
}

-- A disk with one file.
abbrev pub disk : List ℕ → List ℕ → Files
disk path bytes = record {
  content = λ p. if strcmp_eq p path then some bytes else none;
  can_write = λ p. true;
  stat = λ p. none;
  mkdir = λ p. made;
  listing = λ p. none;
  dirs = [];
  memory = true;
  room = λ p b. true;
}

abbrev pub remote : List ℕ
remote = codes "/sdcard/a"

abbrev pub some_data : List ℕ
some_data = 7 ∷ 8 ∷ 9 ∷ []

write_data_file-buffer_example :
    write_data_file Line channel remote (disk remote some_data) (line [])
    ≡ write_data_buffer Line channel some_data 3 (line [])
unfolding strcmp_eq
write_data_file-buffer_example =
    write_data_file-buffer Line channel remote some_data (disk remote some_data) (line []) refl
      (omega arith)

-- The archive has a member "AB" only.
sync_send-IsArchive_example :
    sync_send Line channel remote remote 0 33206 true (disk remote archive) (line [])
    ≡ some (one, line [])
unfolding strcmp_eq small_archive first_prefix
sync_send-IsArchive_example =
    sync_send-IsArchive Line channel remote remote archive 0 33206 (disk remote archive) members
      small_archive (line []) refl refl (omega arith) members-AreTexts
