-- ===== src/Threads/Reads.antt =====
-- No packet is lost, and none counted twice, in a read from the pair.
use adb_server_project.Common.{
  ℕ, ◌+◌, ◌≡◌, refl, inl, inr, none, some, arith, ap, sym, subst, Bool-cases, Option-cases, ◌==◌,
  if◌then◌else◌, length,
}
use adb_server_project.Common.Int.{pos, ltb_ℤ}
use adb_server_project.Packet.{success, failure, fault}
use adb_server_project.Platform.{Platform, IsFifo}
use adb_server_project.SocketPair.{SocketPairRec, BipBufferRec}
use adb_server_project.Transport.State.{Transport}
use adb_server_project.Transport.Packets.{
  put_apacket, read_packet, usb_read_packet, Round, returns, again, sleeps, take_signal,
  set_incoming,
}
use adb_server_project.Transport.Balance.{IsBalanced, held_bip, held_pair, held_queue}

module _ (P : Platform) (fifo : IsFifo P) where
  -- A read that gives a packet puts it into the reader's hands.
  abbrev pub ReadBalances : Round P → Type 0
  ReadBalances (returns success none t) = IsBalanced P fifo 0 t
  ReadBalances (returns success (some p) t) = IsBalanced P fifo 1 t
  ReadBalances (returns failure p t) = IsBalanced P fifo 0 t
  ReadBalances (returns fault p t) = IsBalanced P fifo 0 t
  ReadBalances (again t) = IsBalanced P fifo 0 t
  ReadBalances sleeps = Unit {0}

  take_signal-ReadBalances :
      (f : ℕ) (t : Transport P) → IsBalanced P fifo 0 t → ReadBalances (take_signal P f t)
  take_signal-ReadBalances f t b = elim (Bool-cases (f == t.fd)) [
    | inl e ↦ elim (Bool-cases (ltb_ℤ t.d_write_ctrol (pos 1))) [
      | inl w ↦ rw (e, w) tt
      | inr w ↦ rw (e, w) b
    ]
    | inr e ↦ elim (Bool-cases (ltb_ℤ t.d_read_ctrol (pos 1))) [
      | inl w ↦ rw (e, w) tt
      | inr w ↦ rw (e, w) b
    ]
  ]

  -- A packet that is taken out of one direction.
  popped-IsBalanced :
      (f : ℕ) (t : Transport P) (pair : SocketPairRec P) (bip : BipBufferRec P) (q rest : P.Queue)
      → t.pair ≡ some pair
      → (if f == pair.a_fd then pair.b2a_bip else pair.a2b_bip) ≡ bip
      → bip.ptrlist ≡ some q
      → held_queue P fifo q ≡ held_queue P fifo rest + 1
      → IsBalanced P fifo 0 t
      → IsBalanced P fifo 1
          (record t { pair = some (set_incoming P f (record bip { ptrlist = some rest }) pair) })
  popped-IsBalanced f t pair bip q rest e end has fewer b =
      let all = ap (held_pair P fifo) e in
      let inside : held_bip P fifo bip ≡ held_queue P fifo q =
        ap (λ o. elim o [ none ↦ 0 | some r ↦ held_queue P fifo r ]) has in
      elim (Bool-cases (f == pair.a_fd)) [
        | inl a ↦
            let this : pair.b2a_bip ≡ bip = rw a at end in
            let same = ap (held_bip P fifo) this in
            (rw a (omega (arith, all, inside, same, fewer, b.0)), b.1)
        | inr a ↦
            let this : pair.a2b_bip ≡ bip = rw a at end in
            let same = ap (held_bip P fifo) this in
            (rw a (omega (arith, all, inside, same, fewer, b.0)), b.1)
      ]

  usb_read_packet-ReadBalances :
      (f : ℕ) (t : Transport P) → IsBalanced P fifo 0 t → ReadBalances (usb_read_packet P f none t)
  unfolding usb_read_packet put_apacket
  usb_read_packet-ReadBalances f t b = elim (Option-cases t.pair) [
    | inl e ↦
        let run : usb_read_packet P f none t ≡ returns failure none t =
          simp (usb_read_packet, e) refl in
        subst ReadBalances (sym run) b
    | inr (pair, e) ↦ elim (Bool-cases t.kicked) [
      | inl k ↦
          let run : usb_read_packet P f none t ≡ returns failure none t =
            simp (usb_read_packet, e, k) refl in
          subst ReadBalances (sym run) b
      | inr k ↦
          let bip = if f == pair.a_fd then pair.b2a_bip else pair.a2b_bip in
          elim (Bool-cases bip.closed) [
            | inl c ↦
                let run : usb_read_packet P f none t ≡ returns failure none t =
                  simp (usb_read_packet, e, k, c) refl in
                subst ReadBalances (sym run) b
            | inr c ↦ elim (Option-cases bip.ptrlist) [
              | inl n ↦
                  let run : usb_read_packet P f none t ≡ sleeps =
                    simp (usb_read_packet, e, k, c, n) refl in
                  subst ReadBalances (sym run) tt
              | inr (q, has) ↦ elim (fifo.pop_first q) [
                | inl (empty, none_there) ↦
                    let run : usb_read_packet P f none t ≡ take_signal P f t =
                      simp (usb_read_packet, e, k, c, has, none_there) refl in
                    subst ReadBalances (sym run) (take_signal-ReadBalances f t b)
                | inr (p, rest, holds, popped) ↦
                    let after = record t {
                      pair = some (set_incoming P f (record bip { ptrlist = some rest }) pair);
                    } in
                    let run : usb_read_packet P f none t ≡ returns success (some p) after =
                      simp (usb_read_packet, e, k, c, has, popped) refl in
                    subst ReadBalances (sym run) (
                      popped-IsBalanced f t pair bip q rest e refl has
                        (omega (arith, ap length holds)) b)
              ]
            ]
          ]
    ]
  ]

  pub read_packet-ReadBalances :
      (f : ℕ) (t : Transport P) → IsBalanced P fifo 0 t → ReadBalances (read_packet P f none t)
  unfolding read_packet
  read_packet-ReadBalances f t b =
      let run : read_packet P f none t ≡ usb_read_packet P f none t =
        simp (read_packet, b.1) refl in
      subst ReadBalances (sym run) (usb_read_packet-ReadBalances f t b)
