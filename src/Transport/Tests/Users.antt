-- ===== src/Transport/Tests/Users.antt =====
-- The theorems about a user's calls at a channel of the running transport.
use adb_server_project.Common.{
  ℕ, ◌≡◌, refl, true, [], ◌∷◌, none, some, arith, length, List, zero, suc, ◌<◌, ◌+◌, ◌⊎◌, subst,
}
use adb_server_project.Common.Int.{pos}
use adb_server_project.Platform.Example.{list_platform, list_platform-IsFifo}
use adb_server_project.SocketPair.Tests.{busy_pair}
use adb_server_project.Transport.State.{Transport, Aclient, shell_async, close}
use adb_server_project.Transport.Handle.{handle_packet}
use adb_server_project.Transport.Clients.{client_get_ptr, slot, client_get_id}
use adb_server_project.Transport.Wire.{IsRunning}
use adb_server_project.Transport.Session.{Session}
use adb_server_project.Transport.Users.{client_write}
use adb_server_project.Transport.Users.Write.{joined, Fit, Writes, write_wires, client_write-Writes}
use adb_server_project.Transport.Read.{client_read}
use adb_server_project.Transport.Read.Bytes.{stream, HasStream, client_read-stream}
use adb_server_project.Packet.{success}
use adb_server_project.Transport.Calls.{local_client_type_set}
use adb_server_project.Transport.Calls.Reset.{IsFresh, local_client_type_set-closed}
use adb_server_project.Transport.Clients.Allocate.{
  UsedBelow, IsFirstFree, IsHandedOut, client_get_id-first,
}
use adb_server_project.Transport.State.{client_id_base}
use adb_server_project.Transport.Tests.{
  shell, phone, phone-IsRunning, hello, hello_fits, woken, phone_woken,
}
use adb_server_project.Transport.Handle.{handle_packet}
use adb_server_project.Transport.Read.Delivery.{handle_packet-client_read}

shell_found : client_get_ptr list_platform 100 phone ≡ some (0, shell)
unfolding client_get_ptr
shell_found = refl

client_write-Writes_example :
    (pieces : List (List ℕ)) × (joined pieces ≡ 7 ∷ 8 ∷ [])
    × Fit pieces
    × Writes list_platform list_platform-IsFifo phone
        (write_wires 100 3 pieces)
        (client_write list_platform 2 (7 ∷ 8 ∷ 9 ∷ []) 2 100 phone)
client_write-Writes_example =
    client_write-Writes list_platform list_platform-IsFifo 2 2 100 0 shell (7 ∷ 8 ∷ 9 ∷ []) phone
      (omega arith) (omega arith) phone-IsRunning shell_found refl

abbrev user : Session list_platform
user = record { transport = phone_woken; clock = 50; events = [] }

user-HasStream : HasStream list_platform list_platform-IsFifo 0 user woken
user-HasStream = record {
  there = refl;
  open_type = refl;
  readable = tt;
  whole = (hello_fits, tt);
  running = record {
    the_pair = busy_pair;
    has_pair = refl;
    open_pair = ((refl, λ e. cc), (refl, λ e. cc));
    socket = refl;
    other_end = λ e. absurd (omega arith);
    not_kicked = refl;
    is_usb = refl;
  };
}

-- Two of the three bytes of "hi!".
client_read-stream_example :
    (a' : Aclient list_platform) × (s' : Session list_platform) × (client_read list_platform 5 true
        2
        (some 0)
        0
        user
      ≡ some ((pos 2, b'h' ∷ b'i' ∷ []), s'))
    × HasStream list_platform list_platform-IsFifo 0 s' a'
    × (stream list_platform list_platform-IsFifo a' ≡ b'!' ∷ [])
    × (s'.events ≡ [])
client_read-stream_example =
    client_read-stream list_platform list_platform-IsFifo 5 2 0 0 woken user user-HasStream
      (omega arith) (omega arith)

-- A channel whose earlier use is over, with a packet that nobody has read.
abbrev over : Aclient list_platform
over = record woken { biptype = close }

abbrev user_over : Session list_platform
user_over = record {
  transport = record phone { userlist = some over ∷ [] };
  clock = 50;
  events = [];
}

over_found : client_get_ptr list_platform 100 user_over.transport ≡ some (0, over)
unfolding client_get_ptr
over_found = refl

user_over-IsRunning : IsRunning list_platform list_platform-IsFifo user_over.transport
user_over-IsRunning = record {
  the_pair = busy_pair;
  has_pair = refl;
  open_pair = ((refl, λ e. cc), (refl, λ e. cc));
  socket = refl;
  other_end = λ e. absurd (omega arith);
  not_kicked = refl;
  is_usb = refl;
}

local_client_type_set-closed_example :
    (s' : Session list_platform) × (local_client_type_set list_platform 2 shell_async 100 user_over
      ≡ some (success, s'))
    × ((b : Aclient list_platform) × (slot list_platform s'.transport.userlist 0 ≡ some b)
        × IsFresh list_platform list_platform-IsFifo shell_async b)
    × (s'.events ≡ [])
local_client_type_set-closed_example =
    local_client_type_set-closed list_platform list_platform-IsFifo 2 shell_async 100 0 over
      user_over user_over-IsRunning over_found refl (omega arith)

-- A table whose second place is empty.
abbrev one_free : Transport list_platform
one_free = record phone { userlist = some shell ∷ none ∷ [] }

one_free-IsRunning : IsRunning list_platform list_platform-IsFifo one_free
one_free-IsRunning = record {
  the_pair = busy_pair;
  has_pair = refl;
  open_pair = ((refl, λ e. cc), (refl, λ e. cc));
  socket = refl;
  other_end = λ e. absurd (omega arith);
  not_kicked = refl;
  is_usb = refl;
}

one_free_queues :
    (i : ℕ) (a : Aclient list_platform)
    → slot list_platform one_free.userlist i ≡ some a
    → length (list_platform-IsFifo.contents a.ptrlist) < 1
one_free_queues zero a e =
    let same : shell ≡ a = cc in
    subst (λ (x : Aclient list_platform). length x.ptrlist < 1) same (omega arith)
one_free_queues (suc zero) a e = cc
one_free_queues (suc (suc i)) a e = cc

client_get_id-first_example :
    ((client_get_id list_platform 1 one_free ≡ some (0, one_free))
      × UsedBelow list_platform (length one_free.userlist) one_free.userlist)
    ⊎ ((i : ℕ) × (t' : Transport list_platform) × (client_get_id list_platform 1 one_free
          ≡ some (client_id_base + i, t'))
        × IsFirstFree list_platform i one_free.userlist
        × IsHandedOut list_platform list_platform-IsFifo i one_free.userlist t')
client_get_id-first_example =
    client_get_id-first list_platform list_platform-IsFifo 1 one_free one_free-IsRunning
      one_free_queues

phone-HasStream :
    HasStream list_platform list_platform-IsFifo 0 (record user { transport = phone }) shell
phone-HasStream = record {
  there = refl;
  open_type = refl;
  readable = tt;
  whole = tt;
  running = phone-IsRunning;
}

handle_packet-client_read_example :
    (t' : Transport list_platform) × (s' : Session list_platform) × (handle_packet list_platform
        hello phone
      ≡ some (tt, t'))
    × (client_read list_platform 5 true 3 (some 0) 0 (record user { transport = t' })
        ≡ some ((pos 3, b'h' ∷ b'i' ∷ b'!' ∷ []), s'))
handle_packet-client_read_example =
    handle_packet-client_read list_platform list_platform-IsFifo hello 0 5 0 shell
      (record user { transport = phone }) refl hello_fits refl phone-HasStream shell_found
      (omega arith)
