-- ===== src/Threads/Balance.antt =====
-- No turn of a thread loses a packet or counts one twice.
use adb_server_project.Common.{
  ℕ, ◌≡◌, refl, inl, inr, Bool, true, false, Option, none, some, ap, sym, subst, Bool-cases, ◌==◌,
  if◌then◌else◌,
}
use adb_server_project.Packet.{Apacket, Status, success, failure, fault, a_sync}
use adb_server_project.Platform.{Platform, IsFifo}
use adb_server_project.Transport.State.{Transport, usb_type}
use adb_server_project.Transport.Packets.{
  put_apacket, get_apacket, write_packet, read_packet, Round, returns, again, sleeps,
}
use adb_server_project.Transport.Handle.{handle_packet}
use adb_server_project.Transport.Balance.{
  IsBalanced, After, put_apacket-Balances, get_apacket-Balances,
}
use adb_server_project.Transport.Balance.Send.{write_packet-Balances}
use adb_server_project.Transport.Balance.Handle.{handle_packet-Balances}
use adb_server_project.Remote.{Usb, read_from_remote, write_to_remote}
use adb_server_project.Threads.{
  Machine, Turn, goes_on, leaves, breaks, waits, after_write, faults, after_put, input_packet,
  input_turn, unless_kicked, user_turn, output_turn, output_packet, after_read, refused,
}
use adb_server_project.Threads.Reads.{ReadBalances, read_packet-ReadBalances}

module _ (P : Platform) (fifo : IsFifo P) (U : Usb) where
  -- All packets are accounted for after the turn, none in the thread's hands.
  abbrev pub TurnBalances : Turn P U → Type 0
  TurnBalances (goes_on m) = IsBalanced P fifo 0 m.transport
  TurnBalances (leaves m) = IsBalanced P fifo 0 m.transport
  TurnBalances (breaks m) = IsBalanced P fifo 0 m.transport
  TurnBalances waits = Unit {0}
  TurnBalances faults = Unit {0}

  put_next-TurnBalances :
      (o : Option (Unit {0} × Transport P)) (m : Machine P U) (next : Machine P U → Turn P U)
      → After P fifo 0 o
      → ((n : Machine P U) → IsBalanced P fifo 0 n.transport → TurnBalances (next n))
      → TurnBalances (elim o [ none ↦ waits | some (_, t) ↦ next (record m { transport = t }) ])
  put_next-TurnBalances none m next b k = tt
  put_next-TurnBalances (some (a, t)) m next b k = k (record m { transport = t }) b

  after_put-TurnBalances :
      (p : Apacket) (m : Machine P U) (next : Machine P U → Turn P U)
      → IsBalanced P fifo 1 m.transport
      → ((n : Machine P U) → IsBalanced P fifo 0 n.transport → TurnBalances (next n))
      → TurnBalances (after_put P U p m next)
  after_put-TurnBalances p m next b k =
      put_next-TurnBalances (put_apacket P (some p) m.transport) m next
        (put_apacket-Balances P fifo 0 p m.transport b) k

  after_write-TurnBalances :
      (p : Apacket) (m : Machine P U) (r : Status × U.Pipe)
      → IsBalanced P fifo 1 m.transport
      → TurnBalances (after_write P U p m r)
  after_write-TurnBalances p m (success, pipe) b =
      after_put-TurnBalances p (record m { pipe = pipe }) goes_on b (λ n h. h)
  after_write-TurnBalances p m (failure, pipe) b =
      after_put-TurnBalances p (record m { pipe = pipe }) goes_on b (λ n h. h)
  after_write-TurnBalances p m (fault, pipe) b = tt

  input_packet-TurnBalances :
      (p : Apacket) (m : Machine P U)
      → IsBalanced P fifo 1 m.transport
      → TurnBalances (input_packet P U p m)
  unfolding input_packet
  input_packet-TurnBalances p m b = elim (Bool-cases (p.msg.command == a_sync)) [
    | inl s ↦ elim (Bool-cases (p.msg.arg0 == 0)) [
      | inl z ↦ rw (s, z) (after_put-TurnBalances p m leaves b (λ n h. h))
      | inr z ↦ rw (s, z) (after_put-TurnBalances p _ goes_on b (λ n h. h))
    ]
    | inr s ↦
        let gated : Bool → Turn P U = λ a.
          if a
          then after_write P U p m (write_to_remote U m.transport.kind m.transport.usb p m.pipe)
          else after_put P U p m goes_on in
        rw s (
          by_active m.active gated (after_write-TurnBalances p m _ b)
            (after_put-TurnBalances p m goes_on b (λ n h. h)))
  ]
    where
      by_active :
          (a : Bool) (f : Bool → Turn P U)
          → TurnBalances (f true)
          → TurnBalances (f false)
          → TurnBalances (f a)
      by_active true f t e = t
      by_active false f t e = e

  -- A round of read_packet, for the input thread.
  input_round-TurnBalances :
      (o : Round P) (m : Machine P U)
      → ReadBalances P fifo o
      → TurnBalances (elim o [
        | returns success (some p) t ↦ input_packet P U p (record m { transport = t })
        | returns success none t ↦ goes_on (record m { transport = t })
        | returns _ p t ↦ leaves (record m { transport = t })
        | again t ↦ goes_on (record m { transport = t })
        | sleeps ↦ waits
      ])
  input_round-TurnBalances (returns success (some p) t) m b =
      input_packet-TurnBalances p (record m { transport = t }) b
  input_round-TurnBalances (returns success none t) m b = b
  input_round-TurnBalances (returns failure p t) m b = b
  input_round-TurnBalances (returns fault p t) m b = b
  input_round-TurnBalances (again t) m b = b
  input_round-TurnBalances sleeps m b = tt

  unless_kicked-TurnBalances :
      (m : Machine P U) → IsBalanced P fifo 0 m.transport → TurnBalances (unless_kicked P U m)
  unless_kicked-TurnBalances m b = elim (Bool-cases m.transport.kicked) [
    | inl k ↦
        let run : unless_kicked P U m ≡ leaves m = simp (unless_kicked, k) refl in
        subst TurnBalances (sym run) b
    | inr k ↦
        let run : unless_kicked P U m ≡ goes_on m = simp (unless_kicked, k) refl in
        subst TurnBalances (sym run) b
  ]

  handled-TurnBalances :
      (p : Apacket) (t : Transport P) (m : Machine P U) (o : Option (Unit {0} × Transport P))
      → handle_packet P p t ≡ o
      → IsBalanced P fifo 1 t
      → TurnBalances
          (elim o [ none ↦ waits | some (_, t') ↦ unless_kicked P U (record m { transport = t' }) ])
  handled-TurnBalances p t m none e b = tt
  handled-TurnBalances p t m (some (tt, t')) e b =
      unless_kicked-TurnBalances (record m { transport = t' })
        (handle_packet-Balances P fifo p t t' b e)

  user_round-TurnBalances :
      (o : Round P) (m : Machine P U)
      → ReadBalances P fifo o
      → TurnBalances (elim o [
        | returns success (some p) t ↦ elim (handle_packet P p t) [
          | none ↦ waits
          | some (_, t') ↦ unless_kicked P U (record m { transport = t' })
        ]
        | returns success none t ↦ unless_kicked P U (record m { transport = t })
        | returns _ p t ↦ leaves (record m { transport = t })
        | again t ↦ goes_on (record m { transport = t })
        | sleeps ↦ waits
      ])
  user_round-TurnBalances (returns success (some p) t) m b =
      handled-TurnBalances p t m (handle_packet P p t) refl b
  user_round-TurnBalances (returns success none t) m b =
      unless_kicked-TurnBalances (record m { transport = t }) b
  user_round-TurnBalances (returns failure p t) m b = b
  user_round-TurnBalances (returns fault p t) m b = b
  user_round-TurnBalances (again t) m b = b
  user_round-TurnBalances sleeps m b = tt

  refused-TurnBalances :
      (p : Apacket) (m : Machine P U)
      → IsBalanced P fifo 0 m.transport
      → TurnBalances (refused P U p m)
  refused-TurnBalances p m b =
      let run : refused P U p m ≡ leaves m =
        ap (λ k. elim k [ usb_type ↦ leaves m | _ ↦ after_put P U p m leaves ]) b.1 in
      subst TurnBalances (sym run) b

  output_packet-TurnBalances :
      (fd : ℕ) (p : Apacket) (m : Machine P U)
      → IsBalanced P fifo 1 m.transport
      → TurnBalances (output_packet P U fd p m)
  unfolding output_packet
  output_packet-TurnBalances fd p m b =
      written (write_packet P fd p m.transport) (write_packet-Balances P fifo 0 fd p m.transport b)
    where
      written :
          (o : Option (Status × Transport P))
          → After P fifo 0 o
          → TurnBalances (elim o [
            | none ↦ waits
            | some (success, t) ↦ goes_on (record m { transport = t })
            | some (_, t) ↦ refused P U p (record m { transport = t })
          ])
      written none b = tt
      written (some (success, t)) b = b
      written (some (failure, t)) b = refused-TurnBalances p (record m { transport = t }) b
      written (some (fault, t)) b = refused-TurnBalances p (record m { transport = t }) b

  after_read-TurnBalances :
      (fd : ℕ) (m : Machine P U) (r : Status) (o : Option Apacket)
      → IsBalanced P fifo 1 m.transport
      → TurnBalances (after_read P U fd m r o)
  after_read-TurnBalances fd m success (some q) b = output_packet-TurnBalances fd q m b
  after_read-TurnBalances fd m failure (some q) b = after_put-TurnBalances q m breaks b (λ n h. h)
  after_read-TurnBalances fd m success none b = tt
  after_read-TurnBalances fd m failure none b = tt
  after_read-TurnBalances fd m fault o b = tt

  got-TurnBalances :
      (fd : ℕ) (m : Machine P U) (o : Option (Apacket × Transport P))
      → After P fifo 1 o
      → TurnBalances (elim o [
        | none ↦ waits
        | some (p, t) ↦
            let r = read_from_remote U t.kind t.usb p m.pipe in
            after_read P U fd (record m { transport = t; pipe = r.2 }) r.0 r.1
      ])
  got-TurnBalances fd m none b = tt
  got-TurnBalances fd m (some (p, t)) b =
      let r = read_from_remote U t.kind t.usb p m.pipe in
      after_read-TurnBalances fd (record m { transport = t; pipe = r.2 }) r.0 r.1 b

  -- Where every packet of a transport is accounted for (made = freed + held, none in a thread's hands),
  -- it still is after a turn of the input thread, of the user thread and of the output thread, on
  -- each way the turn can end; a turn that waits, or that leaves an array, comes to no state.
  pub turn-TurnBalances :
      (fd : ℕ) (m : Machine P U)
      → IsBalanced P fifo 0 m.transport
      → TurnBalances (input_turn P U fd m)
        × TurnBalances (user_turn P U fd m)
        × TurnBalances (output_turn P U fd m)
  unfolding input_turn user_turn output_turn
  turn-TurnBalances fd m b =
      let read = read_packet-ReadBalances P fifo fd m.transport b in
      (
        input_round-TurnBalances (read_packet P fd none m.transport) m read,
        user_round-TurnBalances (read_packet P fd none m.transport) m read,
        got-TurnBalances fd m (get_apacket P m.transport)
            (get_apacket-Balances P fifo 0 m.transport b),
      )
