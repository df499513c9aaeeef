-- ===== src/SocketPair/Tests.antt =====
-- Tests of the pair of queues, on queues that are lists.
use adb_server_project.Common.{◌≡◌, refl, ◌⊎◌, false, [], ◌∷◌, none, some}
use adb_server_project.Packet.{Apacket, success, failure}
use adb_server_project.Packet.Tests.{greeting}
use adb_server_project.Platform.Example.{list_platform, list_platform-IsFifo}
use adb_server_project.SocketPair.{SocketPairRec, adb_read, adb_write, adb_close}
use adb_server_project.SocketPair.Fifo.{
  IsOpenPair, queued, wires, adb_write-wires, adb_read-wires, adb_close-refuses,
}

abbrev pub busy_pair : SocketPairRec list_platform
busy_pair = record {
  a2b_bip = record { fdin = 1; fdout = 2; closed = false; ptrlist = some (greeting ∷ []) };
  b2a_bip = record { fdin = 2; fdout = 1; closed = false; ptrlist = some [] };
  a_fd = 100;
  used = 2;
}

busy_pair-IsOpenPair : IsOpenPair list_platform list_platform-IsFifo busy_pair
busy_pair-IsOpenPair = ((refl, λ e. cc), (refl, λ e. cc))

adb_write-wires_example :
    (pair' : SocketPairRec list_platform) × (adb_write list_platform 100 greeting (some busy_pair)
      ≡ some (success, some pair'))
    × IsOpenPair list_platform list_platform-IsFifo pair'
    × (wires list_platform list_platform-IsFifo pair'
        ≡ record { a_to_b = greeting ∷ greeting ∷ []; b_to_a = [] })
    × (pair'.a_fd ≡ 100)
adb_write-wires_example =
    adb_write-wires list_platform list_platform-IsFifo 100 greeting busy_pair busy_pair-IsOpenPair

-- The other end, 101, finds the packet.
adb_read-wires_example :
    ((greeting ∷ [] ≡ []) × (adb_read list_platform 101 (some busy_pair) ≡ none))
    ⊎ ((p : Apacket) × (pair' : SocketPairRec list_platform) × (adb_read list_platform 101
            (some busy_pair)
          ≡ some (some p, some pair'))
        × IsOpenPair list_platform list_platform-IsFifo pair'
        × (greeting ∷ [] ≡ p ∷ queued list_platform list_platform-IsFifo pair'.a2b_bip)
        × (queued list_platform list_platform-IsFifo pair'.b2a_bip
            ≡ queued list_platform list_platform-IsFifo busy_pair.b2a_bip))
adb_read-wires_example =
    adb_read-wires list_platform list_platform-IsFifo 101 busy_pair busy_pair-IsOpenPair

adb_close-refuses_example :
    (pair' : SocketPairRec list_platform) × (adb_close list_platform 101 (some busy_pair)
      ≡ some (success, some pair'))
    × (adb_write list_platform 100 greeting (some pair') ≡ some (failure, some pair'))
    × (adb_read list_platform 100 (some pair') ≡ some (none, some pair'))
adb_close-refuses_example =
    adb_close-refuses list_platform list_platform-IsFifo 101 100 greeting busy_pair
