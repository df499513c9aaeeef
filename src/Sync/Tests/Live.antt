-- ===== src/Sync/Tests/Live.antt =====
-- The file client on a channel of the running transport.
use adb_server_project.Common.{
  ℕ, ◌≡◌, refl, ◌∙◌, ap, List, [], ◌∷◌, ◌++◌, some, take, length, arith, append-nil,
}
use adb_server_project.CString.{codes, strcmp_eq}
use adb_server_project.Packet.{Apacket}
use adb_server_project.Packet.Tests.{greeting, greeting_msg}
use adb_server_project.Platform.Example.{list_platform, list_platform-IsFifo}
use adb_server_project.Transport.State.{Aclient, file_sync}
use adb_server_project.Transport.Clients.{client_get_ptr}
use adb_server_project.Transport.Session.{Session}
use adb_server_project.Transport.View.Refine.{own_fields-IsRunning}
use adb_server_project.Transport.Tests.{phone, phone-IsRunning, shell}
use adb_server_project.Sync.{
  SyncChannel, ok, minus_one, two_words, id_data, id_done, id_recv, id_list,
}
use adb_server_project.Sync.Files.{Files}
use adb_server_project.Sync.Requests.{write_data_buffer, sync_ls}
use adb_server_project.Sync.Send.{sync_send_buffer}
use adb_server_project.Sync.Receive.{sync_recv, sync_recv_buffer}
use adb_server_project.Sync.Copies.{copy_remote_dir_local, with_slash}
use adb_server_project.Sync.Wire.{IsWire}
use adb_server_project.Sync.OnTransport.{transport_channel, IsOpenSync, transport_channel-IsWire}
use adb_server_project.Sync.Frames.{
  join, ArePieces, frames, SendsFrames, write_data_buffer-SendsFrames,
}
use adb_server_project.Sync.Roundtrip.{write_data_buffer-sync_recv_buffer}
use adb_server_project.Sync.Digits.{IsDecimal}
use adb_server_project.Sync.Answers.{refused, answer_bytes, send_bytes, sync_send_buffer-Answer}
use adb_server_project.Sync.Listing.{
  Dent, listing_bytes, sync_ls-listing, copy_remote_dir_local-listing,
}
use adb_server_project.Sync.NewFile.{OnlyDirs, sync_recv-absent}
use adb_server_project.Sync.Tests.{disk, remote, some_data}

abbrev Live : Type 0
Live = Session list_platform

abbrev channel : SyncChannel Live
channel = transport_channel list_platform 8 100

abbrev wire : IsWire Live channel
wire = transport_channel-IsWire list_platform list_platform-IsFifo 8 100

-- A transport whose channel 100 has got one packet with some bytes.
abbrev carrier : List ℕ → Apacket
carrier bytes = record greeting {
  msg = record greeting_msg { data_length = length bytes };
  payload = bytes;
}

abbrev client : List ℕ → Aclient list_platform
client bytes = record shell { biptype = file_sync; ptrlist = carrier bytes ∷ [] }

abbrev line : List ℕ → Live
line bytes = record {
  transport = record phone { userlist = some (client bytes) ∷ [] };
  clock = 0;
  events = [];
}

client_found :
    (bytes : List ℕ)
    → client_get_ptr list_platform 100 (line bytes).transport ≡ some (0, client bytes)
unfolding client_get_ptr
client_found bytes = refl

line-IsOpenSync :
    (bytes : List ℕ) → IsOpenSync list_platform list_platform-IsFifo 8 100 (line bytes)
line-IsOpenSync bytes = record {
  i = 0;
  a = client bytes;
  found = client_found bytes;
  sync_type = refl;
  readable = tt;
  whole = (omega arith, tt);
  running =
      own_fields-IsRunning list_platform list_platform-IsFifo phone (some (client bytes) ∷ [])
        phone.connection_state phone.online phone.quals phone.key phone-IsRunning;
  enough = omega arith;
}

take_all : (bytes : List ℕ) → take (length bytes) bytes ≡ bytes
take_all [] = refl
take_all (b ∷ bytes) = ap (◌∷◌ b) (take_all bytes)

line-Ready : (bytes : List ℕ) → wire.Ready (line bytes)
unfolding transport_channel-IsWire
line-Ready bytes = line-IsOpenSync bytes

comes_in : (bytes : List ℕ) → wire.incoming (line bytes) ≡ bytes
unfolding transport_channel-IsWire client_get_ptr
comes_in bytes = append-nil (take (length bytes) bytes) ∙ take_all bytes

-- What one transport has sent for some bytes.
data_sent :
    SendsFrames Live channel wire some_data
      (line [])
      (write_data_buffer Live channel some_data 3 (line []))
data_sent =
    write_data_buffer-SendsFrames Live channel wire some_data (line []) (line-Ready [])
      (omega arith)

abbrev data_bytes : List ℕ
data_bytes = frames data_sent.pieces ++ (two_words id_done 5 ++ [])

write_data_buffer-sync_recv_buffer_example :
    (after : Live) × (sync_recv_buffer Live channel 4 [] remote (line data_bytes)
      ≡ some ((ok, some_data, some 3), after))
    × (wire.sent after ≡ wire.sent (line data_bytes) ++ (two_words id_recv 9 ++ remote))
    × (wire.incoming after ≡ [])
write_data_buffer-sync_recv_buffer_example =
    write_data_buffer-sync_recv_buffer Live channel wire Live channel wire some_data
      (frames data_sent.pieces) remote [] 4 5 (line []) data_sent.after (line data_bytes)
      (line-Ready []) (omega arith) data_sent.returns data_sent.sends (line-Ready data_bytes)
      (comes_in data_bytes) (omega arith) (omega arith) (omega arith)

abbrev answer : List ℕ
answer = answer_bytes (refused (codes "no space")) []

sync_send_buffer-Answer_example :
    (after : Live) × (pieces : List (List ℕ)) × (digits : List ℕ) × (sync_send_buffer Live channel
        (some some_data)
        3
        remote
        1000
        33206
        (line answer)
      ≡ some (minus_one, after))
    × (join pieces ≡ some_data)
    × ArePieces pieces
    × IsDecimal 33206 digits
    × (wire.sent after ≡ wire.sent (line answer) ++ send_bytes remote (44 ∷ digits) 1000 pieces)
    × (wire.incoming after ≡ [])
sync_send_buffer-Answer_example =
    sync_send_buffer-Answer Live channel wire some_data remote [] 1000 33206
      (refused (codes "no space")) (line answer) (line-Ready answer) (omega arith) (omega arith)
      (omega arith) (comes_in answer) (omega arith)

abbrev two_files : List Dent
two_files =
    record { mode = 33188; size = 10; time = 5; name = codes "a.txt" }
    ∷ record { mode = 33188; size = 20; time = 6; name = codes "b.txt" }
    ∷ []

abbrev listing : List ℕ
listing = listing_bytes two_files []

sync_ls-listing_example :
    (after : Live) × (sync_ls Live channel 3 remote tt (line listing) ≡ some (ok, after))
    × (wire.sent after ≡ wire.sent (line listing) ++ (two_words id_list 9 ++ remote))
    × (wire.incoming after ≡ [])
sync_ls-listing_example =
    sync_ls-listing Live channel wire (Unit {0}) tt two_files 3 remote [] (line listing)
      (line-Ready listing) (comes_in listing) (omega arith, (omega arith, tt)) (omega arith)
      (omega arith)

copy_remote_dir_local-listing_example :
    (after : Live) × (copy_remote_dir_local Live channel 1 3 remote
        (codes "C:/tmp")
        (disk remote some_data)
        (line listing)
      ≡ some ((ok, disk remote some_data), after))
    × (wire.sent after ≡ wire.sent (line listing) ++ (two_words id_list 10 ++ codes "/sdcard/a/"))
    × (wire.incoming after ≡ [])
unfolding with_slash
copy_remote_dir_local-listing_example =
    copy_remote_dir_local-listing Live channel wire two_files 0 3 remote (codes "C:/tmp") []
      (disk remote some_data) (line listing) (line-Ready listing) (comes_in listing)
      (omega arith, (omega arith, tt)) refl refl (omega arith) (omega arith)

abbrev new_data : List ℕ
new_data = two_words id_data 3 ++ some_data

sync_recv-absent_example :
    (after : Live) × (d' : Files) × (sync_recv Live channel 4 remote
        (codes "dir/new")
        (disk remote some_data)
        (line new_data)
      ≡ some ((minus_one, d'), after))
    × OnlyDirs (disk remote some_data) d'
    × (wire.incoming after ≡ some_data)
unfolding strcmp_eq
sync_recv-absent_example =
    sync_recv-absent Live channel wire 4 3 remote (codes "dir/new") some_data
      (disk remote some_data) (line new_data) (line-Ready new_data) (omega arith) (omega arith)
      (comes_in new_data) (omega arith) refl
