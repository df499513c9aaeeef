-- ===== src/Transport/Tests.antt =====
-- A running transport with one channel, and the theorems about handle_packet at a packet for it.
pub mod Users
pub mod Output
use adb_server_project.Common.{
  ℕ, ◌≤◌, ◌≡◌, refl, true, false, [], ◌∷◌, none, some, arith, length, length-replicate, List, zero,
  suc, ◌<◌, ◌+◌, ◌⊎◌, subst,
}
use adb_server_project.Common.Int.{pos, ◌+ℤ◌}
use adb_server_project.Packet.{Apacket}
use adb_server_project.Packet.Tests.{greeting, greeting_msg}
use adb_server_project.Banner.{device}
use adb_server_project.Banner.Tests.{no_quals}
use adb_server_project.Platform.Example.{list_platform, list_platform-IsFifo}
use adb_server_project.SocketPair.Tests.{busy_pair}
use adb_server_project.Transport.State.{
  Transport, Aclient, shell_sync, shell_async, close, usb_type, no_error,
}
use adb_server_project.Transport.Handle.{
  handle_packet, handle_command, command_of, handle_wrte, local_client_enqueue,
}
use adb_server_project.Transport.Clients.{client_get_ptr, client_clear, drain, slot, client_get_id}
use adb_server_project.Transport.Balance.{IsBalanced}
use adb_server_project.Transport.Balance.Handle.{handle_packet-Balances}
use adb_server_project.Transport.Wire.{IsRunning}
use adb_server_project.Transport.View.{view, respond}
use adb_server_project.Transport.View.Whole.{handle_packet-refines}
use adb_server_project.Transport.Session.{Session}
use adb_server_project.Transport.Users.{client_write}
use adb_server_project.Transport.Users.Write.{joined, Fit, Writes, write_wires, client_write-Writes}
use adb_server_project.Transport.Read.{client_read}
use adb_server_project.Transport.Read.Bytes.{stream, HasStream, client_read-stream}
use adb_server_project.Packet.{success}
use adb_server_project.Transport.Packets.{put_apacket}
use adb_server_project.Transport.Calls.{local_client_type_set, reset_channel}
use adb_server_project.Transport.Calls.Reset.{
  IsFresh, local_client_type_set-LeavesFresh, local_client_type_set-closed,
}
use adb_server_project.Transport.Clients.Allocate.{
  UsedBelow, IsFirstFree, IsHandedOut, client_get_id-first,
}
use adb_server_project.Transport.State.{client_id_base}

abbrev pub shell : Aclient list_platform
shell = record {
  user = true;
  biptype = shell_sync;
  local_id = 100;
  remote_id = 3;
  connected = true;
  closing = false;
  last_apacket = none;
  ptrlist = [];
  count = pos 0;
}

-- One packet is in the pair and one in hand, so two came from the heap.
abbrev pub phone : Transport list_platform
phone = record {
  pair = some busy_pair;
  fd = 101;
  transport_socket = 100;
  connect_count = 0;
  ref_count = 3;
  sync_token = 1;
  connection_state = device;
  online = true;
  kind = usb_type;
  usb = true;
  quals = no_quals;
  kicked = false;
  key = none;
  userlist = some shell ∷ [];
  loop_to_use_apacket = [];
  d_write_ctrol = pos 0;
  d_read_ctrol = pos 0;
  t_error = no_error;
  mallocs = 2;
  frees = 0;
}

pub phone-IsRunning : IsRunning list_platform list_platform-IsFifo phone
phone-IsRunning = record {
  the_pair = busy_pair;
  has_pair = refl;
  open_pair = ((refl, λ e. cc), (refl, λ e. cc));
  socket = refl;
  other_end = λ e. absurd (omega arith);
  not_kicked = refl;
  is_usb = refl;
}

phone-IsBalanced : IsBalanced list_platform list_platform-IsFifo 1 phone
phone-IsBalanced = (refl, refl)

-- "hi!" of the device for the channel 100, sent by its service 9.
abbrev pub hello : Apacket
hello = record greeting { msg = record greeting_msg { arg0 = 9; arg1 = 100 } }

pub hello_fits : hello.msg.data_length ≤ length hello.payload
hello_fits = omega (arith, length-replicate {A = ℕ} 4093 0)

abbrev pub woken : Aclient list_platform
woken = record shell { remote_id = 9; ptrlist = hello ∷ []; count = pos 1 }

abbrev pub phone_woken : Transport list_platform
phone_woken = record phone { userlist = some woken ∷ [] }

hello_response :
    respond list_platform
      (command_of hello.msg.command)
      hello
      (view list_platform list_platform-IsFifo phone)
    ≡ some (view list_platform list_platform-IsFifo phone_woken)
unfolding respond command_of ◌+ℤ◌
hello_response = refl

hello_handled : handle_packet list_platform hello phone ≡ some (tt, phone_woken)
unfolding handle_packet handle_command command_of handle_wrte local_client_enqueue client_get_ptr
    ◌+ℤ◌
hello_handled = refl

handle_packet-refines_example :
    (t' : Transport list_platform) × (handle_packet list_platform hello phone ≡ some (tt, t'))
    × IsRunning list_platform list_platform-IsFifo t'
    × (view list_platform list_platform-IsFifo t'
        ≡ view list_platform list_platform-IsFifo phone_woken)
handle_packet-refines_example =
    handle_packet-refines list_platform list_platform-IsFifo hello phone
      (view list_platform list_platform-IsFifo phone_woken) hello_fits phone-IsRunning
      hello_response

handle_packet-Balances_example : IsBalanced list_platform list_platform-IsFifo 0 phone_woken
handle_packet-Balances_example =
    handle_packet-Balances list_platform list_platform-IsFifo hello phone phone_woken
      phone-IsBalanced hello_handled
