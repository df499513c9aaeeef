-- ===== src/Threads/Tests.antt =====
-- Tests of the threads, on queues that are lists and a device whose bytes are a list.
use adb_server_project.Common.{
  length, ◌≤◌, length-replicate, ℕ, ◌≡◌, refl, true, false, [], ◌∷◌, some, arith,
}
use adb_server_project.Packet.{Apacket, a_sync}
use adb_server_project.Packet.Tests.{greeting, greeting_msg}
use adb_server_project.Platform.Example.{list_platform, list_platform-IsFifo}
use adb_server_project.SocketPair.Tests.{busy_pair}
use adb_server_project.Transport.State.{Transport}
use adb_server_project.Transport.Tests.{phone}
use adb_server_project.Remote.Tests.{list_usb}
use adb_server_project.Threads.{
  Machine, goes_on, leaves, input_turn, user_turn, output_start, output_turn,
}
use adb_server_project.Threads.Balance.{TurnBalances, turn-TurnBalances}
use adb_server_project.Threads.Waiting.{HasWaiting}
use adb_server_project.Threads.Gate.{input_run, input_run-passed, write_all}
use adb_server_project.Threads.Incoming.{Incoming}
use adb_server_project.Threads.Announce.{sync_wire, output_start-user_turn}
use adb_server_project.Transport.Wire.{IsRunning, connect_wire}
use adb_server_project.Transport.View.{view, send}

abbrev machine : Machine list_platform list_usb
machine = record { transport = record phone { mallocs = 1 }; pipe = []; active = false }

turn-TurnBalances_example :
    TurnBalances list_platform list_platform-IsFifo list_usb
      (input_turn list_platform list_usb 101 machine)
    × TurnBalances list_platform list_platform-IsFifo list_usb
        (user_turn list_platform list_usb 101 machine)
    × TurnBalances list_platform list_platform-IsFifo list_usb
        (output_turn list_platform list_usb 101 machine)
turn-TurnBalances_example =
    turn-TurnBalances list_platform list_platform-IsFifo list_usb 101 machine (refl, refl)

-- SYNC online with a token.
abbrev sync : ℕ → ℕ → Apacket
sync arg0 arg1 = record greeting {
  msg = record greeting_msg { command = a_sync; arg0 = arg0; arg1 = arg1 };
}

-- A greeting before the SYNC, one behind it, and the SYNC offline.
abbrev traffic : Transport list_platform
traffic = record phone {
  pair = some (record busy_pair {
    a2b_bip = record busy_pair.a2b_bip {
      ptrlist = some (greeting ∷ sync 1 7 ∷ sync 1 1 ∷ greeting ∷ sync 0 0 ∷ []);
    };
  });
}

abbrev waiting : Machine list_platform list_usb
waiting = record machine { transport = traffic }

waiting-HasWaiting :
    HasWaiting list_platform list_platform-IsFifo 101
      (greeting ∷ sync 1 7 ∷ sync 1 1 ∷ greeting ∷ sync 0 0 ∷ [])
      traffic
waiting-HasWaiting = record {
  the_pair = record busy_pair {
    a2b_bip = record busy_pair.a2b_bip {
      ptrlist = some (greeting ∷ sync 1 7 ∷ sync 1 1 ∷ greeting ∷ sync 0 0 ∷ []);
    };
  };
  queue = greeting ∷ sync 1 7 ∷ sync 1 1 ∷ greeting ∷ sync 0 0 ∷ [];
  is_usb = refl;
  not_kicked = refl;
  has_pair = refl;
  other_end = refl;
  open_end = refl;
  has_queue = refl;
  holds = refl;
}

room : 3 ≤ length greeting.payload
room = omega (arith, length-replicate {A = ℕ} 4093 0)

-- One greeting is written.
input_run-passed_example :
    (n : Machine list_platform list_usb) × (input_run list_platform list_platform-IsFifo list_usb
        101 5 waiting
      ≡ leaves n)
    × (n.pipe ≡ write_all list_platform list_platform-IsFifo list_usb 101 true (greeting ∷ []) [])
input_run-passed_example =
    input_run-passed list_platform list_platform-IsFifo list_usb 101
      (greeting ∷ sync 1 7 ∷ sync 1 1 ∷ greeting ∷ sync 0 0 ∷ []) waiting
      (room, (room, (room, (room, (room, tt))))) waiting-HasWaiting

-- The user thread of this transport has nothing to read.
abbrev start : Machine list_platform list_usb
start = record { transport = phone; pipe = []; active = false }

start-Incoming : Incoming list_platform list_platform-IsFifo [] phone
start-Incoming = (
  record {
    the_pair = busy_pair;
    has_pair = refl;
    open_pair = ((refl, λ e. cc), (refl, λ e. cc));
    socket = refl;
    other_end = λ e. absurd (omega arith);
    not_kicked = refl;
    is_usb = refl;
  },
  refl,
)

output_start-user_turn_example :
    (n l : Machine list_platform list_usb) × (output_start list_platform list_usb 101 start
      ≡ goes_on n)
    × (n.transport.sync_token ≡ 2)
    × (user_turn list_platform list_usb 100 n ≡ goes_on l)
    × IsRunning list_platform list_platform-IsFifo l.transport
    × (view list_platform list_platform-IsFifo l.transport
        ≡ send
            (sync_wire list_platform list_platform-IsFifo 2 ∷ connect_wire ∷ [])
            (view list_platform list_platform-IsFifo phone))
output_start-user_turn_example =
    output_start-user_turn list_platform list_platform-IsFifo list_usb start start-Incoming
