-- ===== src/Threads/Waiting.antt =====
-- What waits for the input thread: packets that are read from its end of the pair and given back.
use adb_server_project.Common.{
  ℕ, ◌≡◌, refl, inl, inr, false, List, [], ◌∷◌, none, some, ap, sym, ◌∙◌, ◌==◌,
}
use adb_server_project.Packet.{Apacket, success}
use adb_server_project.Platform.{Platform, IsFifo}
use adb_server_project.SocketPair.{SocketPairRec}
use adb_server_project.Transport.State.{Transport, usb_type}
use adb_server_project.Transport.Packets.{put_apacket, read_packet, usb_read_packet, returns}

module _ (P : Platform) (fifo : IsFifo P) (fd : ℕ) where
  -- The packets `ps` wait for the input thread of a USB transport that is there.
  pub record HasWaiting (ps : List Apacket) (t : Transport P) : Type 0 where
    pub the_pair : SocketPairRec P
    pub queue : P.Queue
    pub is_usb : t.kind ≡ usb_type
    pub not_kicked : t.kicked ≡ false
    pub has_pair : t.pair ≡ some the_pair
    pub other_end : (fd == the_pair.a_fd) ≡ false
    pub open_end : the_pair.a2b_bip.closed ≡ false
    pub has_queue : the_pair.a2b_bip.ptrlist ≡ some queue
    pub holds : fifo.contents queue ≡ ps

  -- A packet is read and the others still wait.
  pub read_waiting :
      (p : Apacket) (ps : List Apacket) (t0 : Transport P)
      → HasWaiting (p ∷ ps) t0
      → (t : Transport P) × (read_packet P fd none t0 ≡ returns success (some p) t)
        × HasWaiting ps t
        × (t.sync_token ≡ t0.sync_token)
        × (t.usb ≡ t0.usb)
  unfolding read_packet usb_read_packet put_apacket
  read_waiting p ps t0 h = elim (fifo.pop_first h.queue) [
    | inl (empty, e) ↦ let never : p ∷ ps ≡ [] = sym h.holds ∙ empty in cc
    | inr (q, rest, all, popped) ↦
        let front : p ∷ ps ≡ q ∷ fifo.contents rest = sym h.holds ∙ all in
        let first : q ≡ p = cc in
        let others : fifo.contents rest ≡ ps = cc in
        let pair' = record h.the_pair {
          a2b_bip = record h.the_pair.a2b_bip { ptrlist = some rest };
        } in
        let t = record t0 { pair = some pair' } in
        let run : read_packet P fd none t0 ≡ returns success (some q) t =
          simp
            (
              read_packet, usb_read_packet, h.is_usb, h.not_kicked, h.has_pair, h.other_end,
              h.open_end, h.has_queue, popped,
            )
            refl in
        (
          t,
          run ∙ ap (λ x. returns success (some x) t) first,
          record {
            the_pair = pair';
            queue = rest;
            is_usb = h.is_usb;
            not_kicked = h.not_kicked;
            has_pair = refl;
            other_end = h.other_end;
            open_end = h.open_end;
            has_queue = refl;
            holds = others;
          },
          refl,
          refl,
        )
  ]

  -- A packet goes back into the pool, and the others still wait.
  pub put_waiting :
      (p : Apacket) (ps : List Apacket) (t0 : Transport P)
      → HasWaiting ps t0
      → (t : Transport P) × (put_apacket P (some p) t0 ≡ some (tt, t))
        × HasWaiting ps t
        × (t.sync_token ≡ t0.sync_token)
        × (t.usb ≡ t0.usb)
  unfolding put_apacket
  put_waiting p ps t0 h =
      let (q, pushed, grown) = fifo.push_succeeds p t0.loop_to_use_apacket in
      let t = record t0 { loop_to_use_apacket = q } in
      let run : put_apacket P (some p) t0 ≡ some (tt, t) =
        simp (put_apacket, h.not_kicked, pushed) refl in
      (
        t,
        run,
        record {
          the_pair = h.the_pair;
          queue = h.queue;
          is_usb = h.is_usb;
          not_kicked = h.not_kicked;
          has_pair = h.has_pair;
          other_end = h.other_end;
          open_end = h.open_end;
          has_queue = h.has_queue;
          holds = h.holds;
        },
        refl,
        refl,
      )
