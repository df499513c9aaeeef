-- ===== src/Threads/Leave.antt =====
-- How the threads of a device end: the first one that leaves its loop kicks the device out, and the
-- others find that out.
use adb_server_project.Common.{ℕ, ◌≡◌, true, some}
use adb_server_project.Common.Int.{pos, ◌+ℤ◌}
use adb_server_project.Platform.{Platform}
use adb_server_project.SocketPair.{SocketPairRec}
use adb_server_project.Transport.State.{Transport, usb_type}
use adb_server_project.Transport.Packets.{take_signal, again}
use adb_server_project.Remote.{Usb}
use adb_server_project.Threads.{
  Machine, Turn, goes_on, leaves, breaks, waits, faults, input_turn, user_turn,
}

module _ (P : Platform) (U : Usb) where
  -- A USB device that is kicked out.
  abbrev pub HasEnded : Transport P → Type 0
  HasEnded t = (t.kind ≡ usb_type) × (t.kicked ≡ true)

  -- The turn ends the loop, the device kicked out as before.
  abbrev pub Ends : Turn P U → Type 0
  Ends (goes_on m) = ⊥
  Ends (leaves m) = HasEnded m.transport
  Ends (breaks m) = HasEnded m.transport
  Ends waits = ⊥
  Ends faults = Unit {0}

  -- What Clear leaves of a USB transport with a pair: each reader has got a token, and both directions
  -- of the pair are closed.
  pub record IsCleared (t t' : Transport P) : Type 0 where
    pub ended : HasEnded t'
    pub same_refs : t'.ref_count ≡ t.ref_count
    pub same_fd : t'.fd ≡ t.fd
    pub read_token : t'.d_read_ctrol ≡ t.d_read_ctrol +ℤ pos 1
    pub write_token : t'.d_write_ctrol ≡ t.d_write_ctrol +ℤ pos 1
    pub pair' : SocketPairRec P
    pub has_pair : t'.pair ≡ some pair'
    pub closed : (pair'.a2b_bip.closed ≡ true) × (pair'.b2a_bip.closed ≡ true)

  -- The thread that reads at an end of the pair wakes, goes round its loop once more and leaves.
  abbrev pub WakesAndLeaves : ℕ → Machine P U → Type 0
  WakesAndLeaves f n =
      (t : Transport P) × (take_signal P f n.transport ≡ again t)
      × HasEnded t
      × (input_turn P U f (record n { transport = t }) ≡ leaves (record n { transport = t }))
      × (user_turn P U f (record n { transport = t }) ≡ leaves (record n { transport = t }))
