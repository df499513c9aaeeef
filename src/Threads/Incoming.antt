-- ===== src/Threads/Incoming.antt =====
-- What waits for the user thread: packets that are written to its end, and read from there.
use adb_server_project.Common.{
  ℕ, suc, ◌≡◌, refl, inl, inr, true, false, List, [], ◌∷◌, ◌++◌, Option, none, some, ap, sym, ◌∙◌,
  arith, Option-cases, ◌==◌,
}
use adb_server_project.Packet.{Apacket, success}
use adb_server_project.Platform.{Platform, IsFifo}
use adb_server_project.SocketPair.{SocketPairRec}
use adb_server_project.SocketPair.Fifo.{queued}
use adb_server_project.Transport.State.{Transport}
use adb_server_project.Transport.Packets.{
  get_apacket, put_apacket, signal_reader, cleared, write_packet, usb_write_packet, read_packet,
  usb_read_packet, returns,
}
use adb_server_project.Transport.Wire.{IsRunning}
use adb_server_project.Transport.Wire.Send.{bip_push-IsOpen, write_packet-eq, write_by_type-usb}
use adb_server_project.Transport.View.{View, view}

module _ (P : Platform) (fifo : IsFifo P) where
  -- A running transport whose user thread has this to read.
  abbrev pub Incoming : List Apacket → Transport P → Type 0
  Incoming ps t = (h : IsRunning P fifo t) × (queued P fifo h.the_pair.b2a_bip ≡ ps)

  -- The view of a transport with another pair.
  abbrev shown : Transport P → Option (SocketPairRec P) → View
  shown t pair = view P fifo (record t { pair = pair })

  -- A packet of the output thread arrives at the user thread's end, and nothing else is seen of it.
  pub write_packet-Incoming :
      (p : Apacket) (ps : List Apacket) (t : Transport P)
      → Incoming ps t
      → (t' : Transport P) × (write_packet P t.fd p t ≡ some (success, t'))
        × Incoming (ps ++ p ∷ []) t'
        × (view P fifo t' ≡ view P fifo t)
        × (t'.transport_socket ≡ t.transport_socket)
        × (t'.sync_token ≡ t.sync_token)
  unfolding usb_write_packet
  write_packet-Incoming p ps t (h, e) =
      let (bip, pushed, ok, grown) = bip_push-IsOpen P fifo p h.the_pair.b2a_bip h.open_pair.1 in
      let other : (t.fd == h.the_pair.a_fd) ≡ false = ground (arith, h.other_end, h.socket) in
      let same : (t.fd == t.fd) ≡ true = ground arith in
      let pair' = record h.the_pair { b2a_bip = bip } in
      let t1 = record t { pair = some pair' } in
      let usb : usb_write_packet P t.fd p t ≡ some (success, t1) =
        simp (usb_write_packet, h.has_pair, h.not_kicked, other, pushed) refl in
      let signalled = signal_reader P t.fd t1 in
      (
        signalled,
        write_packet-eq P fifo t.fd p t t1 success
            (write_by_type-usb P fifo t.fd p t h.is_usb ∙ usb),
        rw same (
          record {
            the_pair = pair';
            has_pair = refl;
            open_pair = (h.open_pair.0, ok);
            socket = h.socket;
            other_end = h.other_end;
            not_kicked = h.not_kicked;
            is_usb = h.is_usb;
          },
          grown ∙ ap (λ l. l ++ p ∷ []) e,
        ),
        rw same (ap (shown t) (sym h.has_pair)),
        rw same refl,
        rw same refl,
      )

  -- The user thread reads it.
  pub read_packet-Incoming :
      (p : Apacket) (ps : List Apacket) (t : Transport P)
      → Incoming (p ∷ ps) t
      → (t' : Transport P) × (read_packet P t.transport_socket none t ≡ returns success (some p) t')
        × Incoming ps t'
        × (view P fifo t' ≡ view P fifo t)
  unfolding read_packet usb_read_packet put_apacket
  read_packet-Incoming p ps t (h, e) = elim (Option-cases h.the_pair.b2a_bip.ptrlist) [
    | inl freed ↦ absurd (h.open_pair.1.1 freed)
    | inr (queue, has) ↦
        let holds : fifo.contents queue ≡ p ∷ ps =
          ap (λ o. elim o [ none ↦ [] | some r ↦ fifo.contents r ]) (sym has) ∙ e in
        elim (fifo.pop_first queue) [
          | inl (empty, none_there) ↦ let never : p ∷ ps ≡ [] = sym holds ∙ empty in cc
          | inr (q, rest, all, popped) ↦
              let front : p ∷ ps ≡ q ∷ fifo.contents rest = sym holds ∙ all in
              let first : q ≡ p = cc in
              let others : fifo.contents rest ≡ ps = cc in
              let pair' = record h.the_pair {
                b2a_bip = record h.the_pair.b2a_bip { ptrlist = some rest };
              } in
              let t' = record t { pair = some pair' } in
              let end : (t.transport_socket == h.the_pair.a_fd) ≡ true = ground (arith, h.socket) in
              let run : read_packet P t.transport_socket none t ≡ returns success (some q) t' =
                simp
                  (
                    read_packet, usb_read_packet, h.is_usb, h.not_kicked, h.has_pair, end,
                    h.open_pair.1.0, has, popped,
                  )
                  refl in
              (
                t',
                run ∙ ap (λ x. returns success (some x) t') first,
                (
                  record {
                    the_pair = pair';
                    has_pair = refl;
                    open_pair = (h.open_pair.0, (h.open_pair.1.0, λ n. cc));
                    socket = h.socket;
                    other_end = h.other_end;
                    not_kicked = h.not_kicked;
                    is_usb = h.is_usb;
                  },
                  others,
                ),
                ap (shown t) (sym h.has_pair),
              )
        ]
  ]

  -- The pool, the heap and the token are no part of it.
  pub other_fields :
      (ps : List Apacket) (pool : P.Queue) (mallocs token : ℕ) (t : Transport P)
      → Incoming ps t
      → Incoming ps (record t { loop_to_use_apacket = pool; mallocs = mallocs; sync_token = token })
  other_fields ps pool mallocs token t (h, e) = (
    record {
      the_pair = h.the_pair;
      has_pair = h.has_pair;
      open_pair = h.open_pair;
      socket = h.socket;
      other_end = h.other_end;
      not_kicked = h.not_kicked;
      is_usb = h.is_usb;
    },
    e,
  )

  -- A packet from the pool, or from malloc, is the only thing that is taken.
  pub get_apacket-Incoming :
      (ps : List Apacket) (t : Transport P)
      → Incoming ps t
      → (bytes : List ℕ) × (t' : Transport P) × (get_apacket P t ≡ some (cleared bytes, t'))
        × Incoming ps t'
        × (view P fifo t' ≡ view P fifo t)
        × (t'.fd ≡ t.fd)
        × (t'.transport_socket ≡ t.transport_socket)
        × (t'.sync_token ≡ t.sync_token)
  unfolding get_apacket
  get_apacket-Incoming ps t i = elim (Option-cases (P.pop t.loop_to_use_apacket)) [
    | inl e ↦ (
      P.malloc_data t.mallocs,
      record t { mallocs = suc t.mallocs },
      simp (get_apacket, e) refl,
      other_fields ps t.loop_to_use_apacket (suc t.mallocs) t.sync_token t i,
      refl,
      refl,
      refl,
      refl,
    )
    | inr ((p, rest), e) ↦ (
      p.payload,
      record t { loop_to_use_apacket = rest },
      simp (get_apacket, e) refl,
      other_fields ps rest t.mallocs t.sync_token t i,
      refl,
      refl,
      refl,
      refl,
    )
  ]
