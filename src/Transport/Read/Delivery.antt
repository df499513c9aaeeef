-- ===== src/Transport/Read/Delivery.antt =====
-- From the device to the user: an A_WRTE that handle_packet takes is what client_read gives.
use adb_server_project.Common.{
  ℕ, ◌+◌, ◌*◌, ◌≤◌, ◌≡◌, refl, true, List, [], ◌∷◌, ◌++◌, some, arith, take, length, ap, sym, ◌∙◌,
  if-true, append_assoc, append-nil, length-append, take-length-append, subst,
}
use adb_server_project.Common.Int.{pos}
use adb_server_project.Packet.{Apacket, a_wrte}
use adb_server_project.Platform.{Platform, IsFifo}
use adb_server_project.Transport.State.{Transport, Aclient}
use adb_server_project.Transport.Clients.{client_get_ptr, update_client, notify}
use adb_server_project.Transport.Clients.Lookup.{slot-update_list_self}
use adb_server_project.Transport.Handle.{
  handle_packet, handle_command, command_of, wrte, handle_wrte, local_client_enqueue,
}
use adb_server_project.Transport.Session.{Session}
use adb_server_project.Transport.View.Refine.{own_fields-IsRunning}
use adb_server_project.Transport.Read.{client_read}
use adb_server_project.Transport.Read.Stream.{rest_bytes, inbox_bytes, AllWhole}
use adb_server_project.Transport.Read.Bytes.{stream, HasStream, client_read-stream}
use adb_server_project.Common.Exec.{◌>>=◌}

inbox_bytes-append :
    (ps : List Apacket) (p : Apacket)
    → inbox_bytes (ps ++ p ∷ []) ≡ inbox_bytes ps ++ take p.msg.data_length p.payload
inbox_bytes-append [] p = append-nil (take p.msg.data_length p.payload)
inbox_bytes-append (q ∷ ps) p =
    ap (◌++◌ (take q.msg.data_length q.payload)) (inbox_bytes-append ps p)
    ∙ sym (
        append_assoc (take q.msg.data_length q.payload) (inbox_bytes ps)
          (take p.msg.data_length p.payload))

AllWhole-append :
    (ps : List Apacket) (p : Apacket)
    → AllWhole ps
    → p.msg.data_length ≤ length p.payload
    → AllWhole (ps ++ p ∷ [])
AllWhole-append [] p h fits = (fits, tt)
AllWhole-append (q ∷ ps) p h fits = (h.0, AllWhole-append ps p h.1 fits)

take_all : (l : List ℕ) → take (length l) l ≡ l
take_all l = ap (take (length l)) (sym (append-nil l)) ∙ take-length-append l []

command_of-wrte : (word : ℕ) → word ≡ a_wrte → command_of word ≡ wrte
unfolding command_of
command_of-wrte word e = ap command_of e

module _ (P : Platform) (fifo : IsFifo P) where
  -- On a running transport that is online, an A_WRTE for an open channel, which holds the bytes that it
  -- announces, is handled. If the user then asks for all bytes, client_read returns those that were in
  -- the channel before followed by those of the packet. Three turns of the loop for each packet that
  -- was in the queue and five more are enough.
  pub handle_packet-client_read :
      (p : Apacket) (i fuel wait_times : ℕ) (a : Aclient P) (s : Session P)
      → p.msg.command ≡ a_wrte
      → p.msg.data_length ≤ length p.payload
      → s.transport.online ≡ true
      → HasStream P fifo i s a
      → client_get_ptr P p.msg.arg1 s.transport ≡ some (i, a)
      → 3 * length (fifo.contents a.ptrlist) + 5 ≤ fuel
      → let bytes = stream P fifo a ++ take p.msg.data_length p.payload in
        (t' : Transport P) × (s' : Session P) × (handle_packet P p s.transport ≡ some (tt, t'))
        × (client_read P fuel true (length bytes) (some i) wait_times (record s { transport = t' })
            ≡ some ((pos (length bytes), bytes), s'))
  unfolding handle_packet handle_command handle_wrte local_client_enqueue
  handle_packet-client_read p i fuel wait_times a s is_wrte fits online h found enough =
      let (q, pushed, grown) = fifo.push_succeeds p a.ptrlist in
      let a' = notify P 1 (record a { ptrlist = q; remote_id = p.msg.arg0 }) in
      let t' =
        update_client P i (λ c. notify P 1 (record c { ptrlist = q; remote_id = p.msg.arg0 }))
          s.transport in
      let s1 = record s { transport = t' } in
      let bytes = stream P fifo a ++ take p.msg.data_length p.payload in
      let handled : handle_packet P p s.transport ≡ some (tt, t') =
        ap (λ c. handle_command P c p s.transport) (command_of-wrte p.msg.command is_wrte)
        ∙ if-true s.transport.online _ _ online
        ∙ rw (found, pushed, local_client_enqueue, ◌>>=◌) refl in
      let longer : stream P fifo a' ≡ bytes =
        ap (λ ps. rest_bytes a.last_apacket ++ inbox_bytes ps) grown
        ∙ ap (◌++◌ (rest_bytes a.last_apacket)) (inbox_bytes-append (fifo.contents a.ptrlist) p)
        ∙ sym (
            append_assoc (rest_bytes a.last_apacket) (inbox_bytes (fifo.contents a.ptrlist))
              (take p.msg.data_length p.payload)) in
      let ready : HasStream P fifo i s1 a' = record {
        there = slot-update_list_self P i _ s.transport.userlist a h.there;
        open_type = h.open_type;
        readable = h.readable;
        whole =
            subst AllWhole (sym grown) (AllWhole-append (fifo.contents a.ptrlist) p h.whole fits);
        running = own_fields-IsRunning P fifo s.transport _ _ _ _ _ h.running;
      } in
      let one_more : length (fifo.contents q) ≡ length (fifo.contents a.ptrlist) + 1 =
        ap length grown ∙ length-append (fifo.contents a.ptrlist) (p ∷ []) in
      let (b, s', read, left, rest, quiet) =
        client_read-stream P fifo fuel (length bytes) i wait_times a' s1 ready
          (omega (arith, ap length longer)) (omega arith) in
      (
        t',
        s',
        handled,
        read ∙ (λ j.
            some ((pos (length bytes), (ap (take (length bytes)) longer ∙ take_all bytes) j), s')),
      )
