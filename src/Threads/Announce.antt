-- ===== src/Threads/Announce.antt =====
-- How the threads of a device that has just come bring the host's messages on their way.
use adb_server_project.Common.{
  ℕ, ◌+◌, ◌%◌, ◌^◌, ◌≡◌, refl, List, [], ◌∷◌, ◌++◌, some, ap, sym, ◌∙◌, arith,
}
use adb_server_project.Packet.{Apacket, success, a_sync, magic_of}
use adb_server_project.Platform.{Platform, IsFifo}
use adb_server_project.Transport.Packets.{cleared, write_packet}
use adb_server_project.Transport.Handle.{command_of}
use adb_server_project.Transport.Wire.{IsRunning, Wire, connect_wire}
use adb_server_project.Transport.View.{view, send, respond}
use adb_server_project.Transport.View.Whole.{handle_packet-refines}
use adb_server_project.Remote.{Usb}
use adb_server_project.Threads.{
  Machine, goes_on, unless_kicked, user_turn, write_sync, output_start,
}
use adb_server_project.Threads.Incoming.{
  Incoming, write_packet-Incoming, read_packet-Incoming, other_fields, get_apacket-Incoming,
}

module _ (P : Platform) (fifo : IsFifo P) where
  abbrev sync_packet : List ℕ → ℕ → ℕ → Apacket
  sync_packet bytes arg0 arg1 = record (cleared bytes) {
    msg = record (cleared bytes).msg {
      command = a_sync;
      arg0 = arg0;
      arg1 = arg1;
      magic = magic_of a_sync;
    };
  }

  -- The host's announcement of a device.
  abbrev pub sync_wire : ℕ → Wire
  sync_wire token = record { command = a_sync; arg0 = 1; arg1 = token; bytes = [] }

  module _ (U : Usb) where
    write_sync-Incoming :
        (arg0 arg1 : ℕ) (ps : List Apacket) (m : Machine P U)
        → Incoming P fifo ps m.transport
        → (bytes : List ℕ) × (n : Machine P U) × (write_sync P U m.transport.fd arg0 arg1 m
            ≡ goes_on n)
          × Incoming P fifo (ps ++ sync_packet bytes arg0 arg1 ∷ []) n.transport
          × (view P fifo n.transport ≡ view P fifo m.transport)
          × (n.transport.transport_socket ≡ m.transport.transport_socket)
          × (n.transport.sync_token ≡ m.transport.sync_token)
    unfolding write_sync
    write_sync-Incoming arg0 arg1 ps m i =
        let (bytes, t, got, i', seen, fd, socket, token) =
          get_apacket-Incoming P fifo ps m.transport i in
        let p = sync_packet bytes arg0 arg1 in
        let (t', wrote, i'', seen', socket', token') = write_packet-Incoming P fifo p ps t i' in
        let n = record m { transport = t' } in
        let written : write_packet P m.transport.fd p t ≡ some (success, t') =
          ap (λ f. write_packet P f p t) (sym fd) ∙ wrote in
        let run : write_sync P U m.transport.fd arg0 arg1 m ≡ goes_on n =
          simp (write_sync, got, written) refl in
        (bytes, n, run, i'', seen' ∙ seen, socket' ∙ socket, token' ∙ token)

    user_turn-sync :
        (bytes : List ℕ) (token : ℕ) (ps : List Apacket) (m : Machine P U)
        → Incoming P fifo (sync_packet bytes 1 token ∷ ps) m.transport
        → (n : Machine P U) × (user_turn P U m.transport.transport_socket m ≡ goes_on n)
          × IsRunning P fifo n.transport
          × (view P fifo n.transport
              ≡ send (sync_wire token ∷ connect_wire ∷ []) (view P fifo m.transport))
    unfolding user_turn respond command_of
    user_turn-sync bytes token ps m i =
        let p = sync_packet bytes 1 token in
        let (t, read, i', seen) = read_packet-Incoming P fifo p ps m.transport i in
        let v = send (sync_wire token ∷ connect_wire ∷ []) (view P fifo t) in
        let (t', handled, running, shows) =
          handle_packet-refines P fifo p t v (omega arith) i'.0 refl in
        let n = record m { transport = t' } in
        let stays : unless_kicked P U n ≡ goes_on n =
          simp (unless_kicked, running.not_kicked) refl in
        let run : user_turn P U m.transport.transport_socket m ≡ unless_kicked P U n =
          simp (user_turn, read, handled) refl in
        (n, run ∙ stays, running, shows ∙ ap (send (sync_wire token ∷ connect_wire ∷ [])) seen)

    -- On a running transport whose user thread has nothing to read, what the output thread does
    -- before its loop and then one turn of the user thread both return, whatever is on its way to
    -- the device; the token is one higher, modulo 2 ^ 32, the transport still runs, and all that is
    -- seen of it besides is that the SYNC with the new token and then the host's CNXN are on their way
    -- to the input thread, behind what was there.
    pub output_start-user_turn :
        (m : Machine P U)
        → Incoming P fifo [] m.transport
        → (n l : Machine P U) × (output_start P U m.transport.fd m ≡ goes_on n)
          × (n.transport.sync_token ≡ (m.transport.sync_token + 1) % 2 ^ 32)
          × (user_turn P U m.transport.transport_socket n ≡ goes_on l)
          × IsRunning P fifo l.transport
          × (view P fifo l.transport
              ≡ send
                  (sync_wire ((m.transport.sync_token + 1) % 2 ^ 32) ∷ connect_wire ∷ [])
                  (view P fifo m.transport))
    unfolding output_start
    output_start-user_turn m i =
        let token = (m.transport.sync_token + 1) % 2 ^ 32 in
        let t = m.transport in
        let m0 = record m { transport = record t { sync_token = token } } in
        let i0 = other_fields P fifo [] t.loop_to_use_apacket t.mallocs token t i in
        let (bytes, n, start, i', seen, socket, same) = write_sync-Incoming 1 token [] m0 i0 in
        let (l, turn, running, shows) = user_turn-sync bytes token [] n i' in
        (
          n,
          l,
          start,
          same,
          ap (λ f. user_turn P U f n) (sym socket) ∙ turn,
          running,
          shows ∙ ap (send (sync_wire token ∷ connect_wire ∷ [])) seen,
        )
