-- ===== src/Transport/Calls/Reset.antt =====
-- local_client_type_set leaves the channel fresh, whatever the other threads do while it waits.
use adb_server_project.Common.{
  ℕ, zero, suc, ◌<◌, ◌≡◌, refl, inl, inr, true, false, [], Option, none, some, arith, length, ap,
  sym, ◌∙◌, subst, if-true, if-false, Bool-cases, Option-cases,
}
use adb_server_project.Common.Int.{pos}
use adb_server_project.Packet.{Apacket, Status, success, failure, fault}
use adb_server_project.Platform.{Platform, IsFifo}
use adb_server_project.Transport.State.{Transport, Aclient, BipbufferType, close}
use adb_server_project.Transport.Packets.{put_apacket}
use adb_server_project.Transport.Clients.{slot, client_get_ptr, drain, free_last, client_clear}
use adb_server_project.Transport.Clients.Lookup.{slot-update_list_self, client_get_ptr-some}
use adb_server_project.Transport.Session.{Session}
use adb_server_project.Transport.Users.{is_type}
use adb_server_project.Transport.Wire.{IsRunning}
use adb_server_project.Transport.Wire.Send.{put_apacket-Sends}
use adb_server_project.Transport.Calls.{
  set_client, reset_channel, finish_use, local_client_type_set,
}

-- What holds of the result and the state of a run that returns.
abbrev pub Leaves : {S A : Type 0} → (A → S → Type 0) → Option (A × S) → Type 0
Leaves Q none = Unit {0}
Leaves Q (some (a, s)) = Q a s

module _ (P : Platform) (fifo : IsFifo P) where
  put_apacket-Leaves :
      (p : Apacket) (t : Transport P)
      → Leaves (λ u t'. t'.userlist ≡ t.userlist) (put_apacket P (some p) t)
  unfolding put_apacket
  put_apacket-Leaves p t = elim (Bool-cases t.kicked) [
    | inl k ↦ subst (Leaves (λ u t'. t'.userlist ≡ t.userlist)) (sym (if-true t.kicked _ _ k)) refl
    | inr k ↦
        let (q, pushed, grown) = fifo.push_succeeds p t.loop_to_use_apacket in
        let kept : put_apacket P (some p) t ≡ some (tt, record t { loop_to_use_apacket = q }) =
          if-false t.kicked _ _ k ∙ rw pushed refl in
        subst (Leaves (λ u t'. t'.userlist ≡ t.userlist)) (sym kept) refl
  ]

  -- What drain leaves is empty, and the table of channels is not touched.
  pub drain-Leaves :
      (fuel : ℕ) (q : P.Queue) (t : Transport P)
      → Leaves (λ q' t'. (fifo.contents q' ≡ []) × (t'.userlist ≡ t.userlist)) (drain P fuel q t)
  unfolding drain
  drain-Leaves zero q t = tt
  drain-Leaves (suc fuel) q t = elim (fifo.pop_first q) [
    | inl (empty, nothing) ↦ rw (nothing, drain, Leaves) (empty, refl)
    | inr (p, r, grown, popped) ↦ elim (Option-cases (put_apacket P (some p) t)) [
      | inl stuck ↦ rw (popped, stuck, drain, Leaves) tt
      | inr ((u, t1), put) ↦
          let same : t1.userlist ≡ t.userlist = rw (put, Leaves) at (put_apacket-Leaves p t) in
          rw (popped, put, drain)
            (subst
              (λ l.
                Leaves (λ q' t'. (fifo.contents q' ≡ []) × (t'.userlist ≡ l)) (drain P fuel r t1))
              same (drain-Leaves fuel r t1))
    ]
  ]

  pub free_last-users :
      (o : Option Apacket) (t : Transport P) → (free_last P o t).userlist ≡ t.userlist
  free_last-users none t = refl
  free_last-users (some p) t = refl

  -- A channel that a new use can start on.
  abbrev pub IsFresh : BipbufferType → Aclient P → Type 0
  IsFresh type a =
      (a.biptype ≡ type)
      × (fifo.contents a.ptrlist ≡ [])
      × (a.last_apacket ≡ none)
      × (a.closing ≡ false)
      × (a.count ≡ pos 0)

  -- Where a call has returned 0.
  abbrev pub LeavesFresh : BipbufferType → ℕ → Status → Session P → Type 0
  LeavesFresh type i status s =
      status ≡ success → (a : Aclient P) × (slot P s.transport.userlist i ≡ some a) × IsFresh type a

  reset_channel-Leaves :
      (fuel : ℕ) (type : BipbufferType) (i : ℕ) (s : Session P)
      → Leaves (LeavesFresh type i) (reset_channel P fuel type i s)
  unfolding reset_channel client_clear
  reset_channel-Leaves fuel type i s = elim (Option-cases (slot P s.transport.userlist i)) [
    | inl gone ↦ rw (gone, reset_channel, Leaves) tt
    | inr (a, there) ↦
        let t0 = free_last P a.last_apacket s.transport in
        elim (Option-cases (drain P fuel a.ptrlist t0)) [
          | inl stuck ↦ rw (there, stuck, reset_channel, client_clear, Leaves) tt
          | inr ((q, t1), drained) ↦
              let (empty, same) : (fifo.contents q ≡ []) × (t1.userlist ≡ t0.userlist) =
                rw (drained, Leaves) at (drain-Leaves fuel a.ptrlist t0) in
              let still : slot P t1.userlist i ≡ some a =
                ap (λ l. slot P l i) (same ∙ free_last-users a.last_apacket s.transport) ∙ there in
              rw (there, drained, reset_channel, client_clear, Leaves)
                (λ ok. (
                  _,
                  slot-update_list_self P i _ t1.userlist a still,
                  (refl, empty, refl, refl, refl),
                ))
        ]
  ]

  -- Where local_client_type_set returns 0, for a channel that a user owns, the channel has the new
  -- type, its inbox is empty, no packet is left over from its earlier use, it is not closing, and its
  -- semaphore has no token, whatever the other threads do to the transport while the call waits.
  pub local_client_type_set-LeavesFresh :
      (fuel : ℕ) (type : BipbufferType) (local_id i : ℕ) (a : Aclient P) (s s' : Session P)
      → client_get_ptr P local_id s.transport ≡ some (i, a)
      → local_client_type_set P fuel type local_id s ≡ some (success, s')
      → (b : Aclient P) × (slot P s'.transport.userlist i ≡ some b) × IsFresh type b
  unfolding local_client_type_set
  local_client_type_set-LeavesFresh fuel type local_id i a s s' found e =
      elim (Bool-cases (is_type a.biptype close)) [
        | inl closed ↦
            let e' : reset_channel P fuel type i s ≡ some (success, s') =
              rw (found, closed, local_client_type_set) at e in
            (rw (e', Leaves) at (reset_channel-Leaves fuel type i s)) refl
        | inr used ↦ elim (Option-cases (finish_use P fuel local_id i s)) [
          | inl stuck ↦
              let e' : none ≡ some (success, s') =
                rw (found, used, stuck, local_client_type_set) at e in
              cc
          | inr ((success, s1), finished) ↦
              let e' : reset_channel P fuel type i s1 ≡ some (success, s') =
                rw (found, used, finished, local_client_type_set) at e in
              (rw (e', Leaves) at (reset_channel-Leaves fuel type i s1)) refl
          | inr ((failure, s1), finished) ↦
              let e' : some (failure, s1) ≡ some (success, s') =
                rw (found, used, finished, local_client_type_set) at e in
              cc
          | inr ((fault, s1), finished) ↦
              let e' : some (failure, s1) ≡ some (success, s') =
                rw (found, used, finished, local_client_type_set) at e in
              cc
        ]
      ]

  -- On a running transport drain comes to an end.
  pub drain-returns :
      (fuel : ℕ) (q : P.Queue) (t : Transport P)
      → IsRunning P fifo t
      → length (fifo.contents q) < fuel
      → (r : P.Queue × Transport P) × (drain P fuel q t ≡ some r)
  unfolding drain
  drain-returns zero q t h enough = absurd (omega arith)
  drain-returns (suc fuel) q t h enough = elim (fifo.pop_first q) [
    | inl (empty, nothing) ↦ ((q, t), rw (nothing, drain) refl)
    | inr (p, rest, grown, popped) ↦
        let w = put_apacket-Sends P fifo p t h in
        let (r, e) = drain-returns fuel rest w.after w.running (omega (arith, ap length grown)) in
        (r, rw (popped, w.returned, drain) e)
  ]

  pub free_last-IsRunning :
      (o : Option Apacket) (t : Transport P)
      → IsRunning P fifo t
      → IsRunning P fifo (free_last P o t)
  free_last-IsRunning none t h = h
  free_last-IsRunning (some p) t h = record {
    the_pair = h.the_pair;
    has_pair = h.has_pair;
    open_pair = h.open_pair;
    socket = h.socket;
    other_end = h.other_end;
    not_kicked = h.not_kicked;
    is_usb = h.is_usb;
  }

  -- On a running transport, for a channel in use that is closed, local_client_type_set returns 0
  -- without waiting: as much fuel as one more than the packets in the channel's queue is enough. The
  -- channel then has the new type, with an empty inbox, no left-over packet and no token.
  pub local_client_type_set-closed :
      (fuel : ℕ) (type : BipbufferType) (local_id i : ℕ) (a : Aclient P) (s : Session P)
      → IsRunning P fifo s.transport
      → client_get_ptr P local_id s.transport ≡ some (i, a)
      → is_type a.biptype close ≡ true
      → length (fifo.contents a.ptrlist) < fuel
      → (s' : Session P) × (local_client_type_set P fuel type local_id s ≡ some (success, s'))
        × ((b : Aclient P) × (slot P s'.transport.userlist i ≡ some b) × IsFresh type b)
        × (s'.events ≡ s.events)
  unfolding local_client_type_set reset_channel client_clear
  local_client_type_set-closed fuel type local_id i a s h found closed enough =
      let there = (client_get_ptr-some P local_id i a s.transport found).1 in
      let t0 = free_last P a.last_apacket s.transport in
      let ((q, t1), drained) =
        drain-returns fuel a.ptrlist t0 (free_last-IsRunning a.last_apacket s.transport h) enough in
      let b = record a {
        last_apacket = none;
        ptrlist = q;
        count = pos 0;
        closing = false;
        biptype = type;
      } in
      let s' = set_client P i (λ c. b) (record s { transport = t1 }) in
      let done : local_client_type_set P fuel type local_id s ≡ some (success, s') =
        rw (found, closed, there, drained, local_client_type_set, reset_channel, client_clear)
          refl in
      (s', done, local_client_type_set-LeavesFresh fuel type local_id i a s s' found done, refl)
