-- ===== src/Transport/Wire/Send.antt =====
-- Each sending operation returns on a running transport, and sends exactly its message.
use adb_server_project.Common.{
  ℕ, ◌≡◌, refl, inl, inr, true, false, List, [], ◌∷◌, ◌++◌, some, arith, length, length-append,
  Bool-cases, Option-cases, ◌==◌, ap, ltb,
}
use adb_server_project.Common.Exec.{◌>>=◌}
use adb_server_project.Packet.{Apacket, seal_packet, Status, success}
use adb_server_project.Platform.{Platform, IsFifo}
use adb_server_project.Transport.State.{Transport, usb_type}
use adb_server_project.Transport.Packets.{
  get_apacket, put_apacket, usb_write_packet, write_packet, write_by_type, signal_reader,
}
use adb_server_project.Common.{◌≤◌, map, ◌∙◌, sym, if-false, subst, drop, take-length-append}
use mathlib.Core.List.{map-append}
use adb_server_project.Packet.{a_cnxn, a_version, max_payload}
use adb_server_project.SocketPair.{SocketPairRec, BipBufferRec}
use adb_server_project.SocketPair.Fifo.{queued, IsOpenPair, IsOpen}
use adb_server_project.Packet.Seal.{seal_packet-wire}
use adb_server_project.Transport.Packets.{bip_push}
use adb_server_project.Transport.Send.{
  send_packet, send_connect, send_ready, send_close, with_command, with_payload, connect_data,
}
use adb_server_project.Transport.Wire.{
  Wire, wire, outgoing, IsRunning, IsFrame-refl, Sends, Sends-bind, Sends-quiet, ready_wires,
  close_wires, connect_wire,
}

module _ (P : Platform) (fifo : IsFifo P) where
  -- A push to the device's direction of an open pair.
  pub bip_push-IsOpen :
      (p : Apacket) (bip : BipBufferRec P)
      → IsOpen P fifo bip
      → (bip' : BipBufferRec P) × (bip_push P p bip ≡ some (some bip'))
        × IsOpen P fifo bip'
        × (queued P fifo bip' ≡ queued P fifo bip ++ p ∷ [])
  bip_push-IsOpen p bip h = elim (Option-cases bip.ptrlist) [
    | inl freed ↦ absurd (h.1 freed)
    | inr (q, e) ↦
        let (r, pushed, grown) = fifo.push_succeeds p q in
        (record bip { ptrlist = some r }, ground arith, (h.0, λ n. cc), ground arith)
  ]

  usb_write_packet-sends :
      (p : Apacket) (t : Transport P)
      → IsRunning P fifo t
      → (pair' : SocketPairRec P) × (usb_write_packet P t.transport_socket p t
          ≡ some (success, record t { pair = some pair' }))
        × IsOpenPair P fifo pair'
        × (t.transport_socket ≡ pair'.a_fd)
        × (map wire (queued P fifo pair'.a2b_bip) ≡ outgoing P fifo t ++ wire p ∷ [])
  unfolding usb_write_packet
  usb_write_packet-sends p t h =
      let (bip, e, ok, grown) = bip_push-IsOpen p h.the_pair.a2b_bip h.open_pair.0 in
      let end : (t.transport_socket == h.the_pair.a_fd) ≡ true = ground (arith, h.socket) in
      (
        record h.the_pair { a2b_bip = bip },
        rw (h.has_pair, usb_write_packet) (if-false t.kicked _ _ h.not_kicked ∙ rw (end, e) refl),
        (ok, h.open_pair.1),
        h.socket,
        rw (h.has_pair, outgoing) (ap (map wire) grown ∙ map-append wire _ _),
      )

  wire_eq :
      (p q : Apacket)
      → q.msg.command ≡ p.msg.command
      → q.msg.arg0 ≡ p.msg.arg0
      → q.msg.arg1 ≡ p.msg.arg1
      → q.msg.data_length ≡ p.msg.data_length
      → q.payload ≡ p.payload
      → wire q ≡ wire p
  wire_eq p q a b c d e = rw (a, b, c, d, e)

  pub write_by_type-usb :
      (f : ℕ) (p : Apacket) (t : Transport P)
      → t.kind ≡ usb_type
      → write_by_type P f p t ≡ usb_write_packet P f p t
  unfolding write_by_type
  write_by_type-usb f p t e = simp (e, write_by_type)

  pub write_packet-eq :
      (f : ℕ) (p : Apacket) (t t' : Transport P) (ret : Status)
      → write_by_type P f p t ≡ some (ret, t')
      → write_packet P f p t ≡ some (ret, signal_reader P f t')
  unfolding write_packet
  write_packet-eq f p t t' ret e = rw (e, write_packet, ◌>>=◌) refl

  send_packet-eq :
      (p q : Apacket) (t t' : Transport P) (ret : Status)
      → seal_packet p ≡ some q
      → write_packet P t.transport_socket q t ≡ some (ret, t')
      → send_packet P p t ≡ some (tt, t')
  unfolding send_packet
  send_packet-eq p q t t' ret a b = rw (a, b, send_packet) refl

  -- send_packet returns on a running transport when the payload holds the announced bytes.
  pub send_packet-Sends :
      (p : Apacket) (t : Transport P)
      → p.msg.data_length ≤ length p.payload
      → IsRunning P fifo t
      → Sends P fifo t (wire p ∷ []) (send_packet P p t)
  send_packet-Sends p t fits h =
      let (q, sealed, c, a, b, d, e) = seal_packet-wire p fits in
      let (pair', pushed, ok, socket, grown) = usb_write_packet-sends q t h in
      let other : (t.transport_socket == t.fd) ≡ false = ground (arith, h.other_end) in
      record {
        result = tt;
        after = signal_reader P t.transport_socket (record t { pair = some pair' });
        returned = send_packet-eq p q t _ success sealed (
            write_packet-eq t.transport_socket q t _ success
              (write_by_type-usb t.transport_socket q t h.is_usb ∙ pushed));
        running = rw other (record {
          the_pair = pair';
          has_pair = refl;
          open_pair = ok;
          socket = socket;
          other_end = h.other_end;
          not_kicked = h.not_kicked;
          is_usb = h.is_usb;
        });
        sent = rw other (grown ∙ ap (λ w. outgoing P fifo t ++ w ∷ []) (wire_eq p q c a b d e));
        frame = rw other (record {
          same_users = refl;
          same_state = refl;
          same_online = refl;
          same_quals = refl;
          same_key = refl;
          same_error = refl;
          same_connects = refl;
          same_refs = refl;
          same_token = refl;
        });
      }

  -- A change of the pool and of the heap's counters alone is not seen.
  pool-Sends :
      {A : Type 0} (t : Transport P) (q : P.Queue) (mallocs frees : ℕ) (a : A)
      → IsRunning P fifo t
      → Sends P fifo t []
          (some (a, record t { loop_to_use_apacket = q; mallocs = mallocs; frees = frees }))
  pool-Sends t q mallocs frees a h =
      Sends-quiet P fifo t (record t { loop_to_use_apacket = q; mallocs = mallocs; frees = frees })
        a
        (record {
          the_pair = h.the_pair;
          has_pair = h.has_pair;
          open_pair = h.open_pair;
          socket = h.socket;
          other_end = h.other_end;
          not_kicked = h.not_kicked;
          is_usb = h.is_usb;
        })
        refl
        (record {
          same_users = refl;
          same_state = refl;
          same_online = refl;
          same_quals = refl;
          same_key = refl;
          same_error = refl;
          same_connects = refl;
          same_refs = refl;
          same_token = refl;
        })

  pub get_apacket-Sends :
      (t : Transport P) → IsRunning P fifo t → Sends P fifo t [] (get_apacket P t)
  unfolding get_apacket
  get_apacket-Sends t h = elim (Option-cases (P.pop t.loop_to_use_apacket)) [
    | inl e ↦ rw (e, get_apacket) (pool-Sends t _ _ _ _ h)
    | inr ((p, q), e) ↦ rw (e, get_apacket) (pool-Sends t _ _ _ _ h)
  ]

  pub put_apacket-Sends :
      (p : Apacket) (t : Transport P)
      → IsRunning P fifo t
      → Sends P fifo t [] (put_apacket P (some p) t)
  unfolding put_apacket
  put_apacket-Sends p t h =
      let (q, pushed, grown) = fifo.push_succeeds p t.loop_to_use_apacket in
      subst (Sends P fifo t []) (sym (if-false t.kicked _ _ h.not_kicked ∙ rw pushed refl))
        (pool-Sends t q t.mallocs t.frees tt h)

  -- A fresh packet, prepared by `f`, goes out as the message `w`.
  pub send_new-Sends :
      (f : Apacket → Apacket) (w : Wire) (t : Transport P)
      → ((p : Apacket) → (wire (f p) ≡ w) × ((f p).msg.data_length ≤ length (f p).payload))
      → IsRunning P fifo t
      → Sends P fifo t (w ∷ []) ((get_apacket P >>= λ p. send_packet P (f p)) t)
  send_new-Sends f w t fits h =
      Sends-bind P fifo t [] (w ∷ []) (get_apacket P) (λ p. send_packet P (f p))
        (get_apacket-Sends t h)
        (λ p u running frame.
          subst (λ v. Sends P fifo u (v ∷ []) (send_packet P (f p) u)) (fits p).0
            (send_packet-Sends (f p) u (fits p).1 running))

  pub send_ready-Sends :
      (local remote : ℕ) (t : Transport P)
      → IsRunning P fifo t
      → Sends P fifo t (ready_wires local remote) (send_ready P local remote t)
  unfolding send_ready
  send_ready-Sends local remote t h = elim (Bool-cases (ltb 0 remote)) [
    | inl e ↦ rw (e, send_ready) (send_new-Sends _ _ t (λ p. (refl, omega arith)) h)
    | inr e ↦ rw (e, send_ready) (Sends-quiet P fifo t t tt h refl (IsFrame-refl P fifo t))
  ]

  pub send_close-Sends :
      (local remote : ℕ) (t : Transport P)
      → IsRunning P fifo t
      → Sends P fifo t (close_wires local remote) (send_close P local remote t)
  unfolding send_close
  send_close-Sends local remote t h = elim (Bool-cases (ltb 0 remote)) [
    | inl e ↦ rw (e, send_close) (send_new-Sends _ _ t (λ p. (refl, omega arith)) h)
    | inr e ↦ rw (e, send_close) (Sends-quiet P fifo t t tt h refl (IsFrame-refl P fifo t))
  ]

  pub payload-fits :
      (bytes : List ℕ) (c a b : ℕ) (p : Apacket)
      → (wire (with_payload bytes (with_command c a b (length bytes) p))
          ≡ record { command = c; arg0 = a; arg1 = b; bytes = bytes })
        × (length bytes ≤ length (with_payload bytes p).payload)
  payload-fits bytes c a b p = (
    rw (take-length-append bytes (drop (length bytes) p.payload)) refl,
    omega (arith, length-append bytes (drop (length bytes) p.payload)),
  )

  pub send_connect-Sends :
      (t : Transport P) → IsRunning P fifo t → Sends P fifo t (connect_wire ∷ []) (send_connect P t)
  unfolding send_connect
  send_connect-Sends t h =
      send_new-Sends _ _ t (payload-fits connect_data a_cnxn a_version max_payload) h
