-- ===== src/Transport/View/Deliver.antt =====
-- A_CLSE and A_WRTE against their promises: a channel is closed, a packet is put into its inbox.
use adb_server_project.Common.{
  ℕ, ◌≡◌, refl, inl, inr, false, [], ◌∷◌, ◌++◌, Option, none, some, Bool-cases, Option-cases,
  if◌then◌else◌, ap,
}
use adb_server_project.Common.Int.{ℤ, pos, negsuc, ◌+ℤ◌}
use adb_server_project.Common.Exec.{◌>>=◌, ◌>>◌, pure}
use adb_server_project.Packet.{Apacket}
use adb_server_project.Platform.{Platform, IsFifo}
use adb_server_project.Transport.State.{Transport, Aclient}
use adb_server_project.Transport.Packets.{put_apacket}
use adb_server_project.Common.{◌∙◌, sym, if-false, if-true, subst}
use adb_server_project.Transport.Send.{send_close}
use adb_server_project.Transport.Wire.{IsRunning, Sends-then, close_wires}
use adb_server_project.Common.Int.{◌+ℤ◌}
use adb_server_project.Transport.State.{close}
use adb_server_project.Transport.Clients.{client_get_ptr, update_client, notify}
use adb_server_project.Transport.Clients.Lookup.{client_get_ptr-some}
use adb_server_project.Transport.Handle.{
  handle_clse, handle_wrte, local_client_enqueue, clse, wrte, is_zero, close_channel,
}
use adb_server_project.Transport.Wire.Send.{put_apacket-Sends, send_close-Sends}
use adb_server_project.Transport.View.{
  View, view, respond, send, channel, place_of, if_online, signalled, respond_wrte, closed_channel,
}
use adb_server_project.Transport.View.Channels.{index, place_of-channels_of}
use adb_server_project.Transport.View.Refine.{
  Shows, Sends-Shows, Shows-then, put_apacket-Shows, update_client-Shows, if_online-Shows,
  some-Shows, Meets,
}
use adb_server_project.Transport.View.Commands.{stay-Shows}

module _ (P : Platform) (fifo : IsFifo P) where
  -- The table of channels is found by the ids that the view tells.
  seen-place :
      (id : ℕ) (u : Transport P) (v : View)
      → view P fifo u ≡ v
      → index P fifo (client_get_ptr P id u) ≡ place_of id v.channels
  seen-place id u v e = sym (place_of-channels_of P fifo id u) ∙ ap (λ w. place_of id w.channels) e

  close_channel-Shows :
      (id : ℕ) (u : Transport P) (v : View)
      → IsRunning P fifo u
      → view P fifo u ≡ v
      → Shows P fifo (closed_channel P (place_of id v.channels) v) (close_channel P id u)
  close_channel-Shows id u v h e = elim (Option-cases (client_get_ptr P id u)) [
    | inl gone ↦
        let none_there : place_of id v.channels ≡ none = sym (rw gone at (seen-place id u v e)) in
        rw (gone, none_there, close_channel)
          (some-Shows P fifo (view P fifo u) v _ (stay-Shows P fifo u h) (ap some e))
    | inr ((i, a), found) ↦
        let there : place_of id v.channels ≡ some i = sym (rw found at (seen-place id u v e)) in
        rw (found, there, close_channel)
          (update_client-Shows P fifo v i _
            (λ c. signalled (record c { biptype = close; remote_id = 0; connected = false })) u h
            (λ b at. refl) e)
  ]

  pub handle_clse-Meets : Meets P fifo clse (handle_clse P)
  unfolding handle_clse respond
  handle_clse-Meets p t v fits h e =
      some-Shows P fifo _ v _
        (Shows-then P fifo
          (send (if_online (view P fifo t) (close_wires 0 p.msg.arg0)) (view P fifo t)) _
          (λ u. (if u.online then send_close P 0 p.msg.arg0 else pure tt) u) _ t
          (if_online-Shows P fifo t (close_wires 0 p.msg.arg0) (send_close P 0 p.msg.arg0) h
            (send_close-Sends P fifo 0 p.msg.arg0 t h))
          (λ u running seen. close_channel-Shows p.msg.arg1 u _ running seen))
        e

  -- The packet's delivery returns, never 0, and puts the packet last into the channel's inbox.
  enqueued :
      (remote local : ℕ) (p : Apacket) (t : Transport P)
      → IsRunning P fifo t
      → (o : Option (ℕ × Aclient P)) → client_get_ptr P local t ≡ o
      → (r : ℤ) × (u : Transport P) × (is_zero P r ≡ false)
        × (local_client_enqueue P remote local p t ≡ some (r, u))
        × Shows P fifo (respond_wrte P (index P fifo o) remote p (view P fifo t)) (some (tt, u))
  unfolding local_client_enqueue
  enqueued remote local p t h none gone =
      let s = put_apacket-Sends P fifo p t h in
      let r = send_close-Sends P fifo 0 remote s.after s.running in
      (
        negsuc 0,
        r.after,
        refl,
        rw (gone, s.returned, r.returned, local_client_enqueue, ◌>>◌) refl,
        rw (s.returned, r.returned, ◌>>◌) at
            (Sends-Shows P fifo t (close_wires 0 remote) _ (
              Sends-then P fifo t [] (close_wires 0 remote) (put_apacket P (some p))
                (send_close P 0 remote) s
                (λ u running frame. send_close-Sends P fifo 0 remote u running))),
      )
  enqueued remote local p t h (some (i, a)) found =
      let (q, pushed, grown) = fifo.push_succeeds p a.ptrlist in
      (
        pos 1,
        update_client P i (λ c. notify P 1 (record c { ptrlist = q; remote_id = remote })) t,
        refl,
        rw (found, pushed, local_client_enqueue) refl,
        update_client-Shows P fifo (view P fifo t) i _
            (λ c. signalled (record c { inbox = c.inbox ++ p ∷ []; remote_id = remote })) t h
            (λ b at.
              let there = (client_get_ptr-some P local i a t found).1 in
              let same : b ≡ a = cc in
              λ j. record (channel P fifo b) {
                inbox =
                    (grown ∙ ap (λ (x : Aclient P). fifo.contents x.ptrlist ++ p ∷ []) (sym same))
                      j;
                remote_id = remote;
                count = b.count +ℤ pos 1;
              })
            refl,
      )

  pub handle_wrte-Meets : Meets P fifo wrte (handle_wrte P)
  unfolding handle_wrte respond
  handle_wrte-Meets p t v fits h e = elim (Bool-cases t.online) [
    | inr off ↦
        some-Shows P fifo _ v _
          (subst (Shows P fifo _) (sym (if-false t.online _ _ off))
            (put_apacket-Shows P fifo (view P fifo t) p t h refl))
          (ap some (sym (if-false t.online _ (view P fifo t) off)) ∙ e)
    | inl on ↦
        let (r, u, nonzero, returned, shows) =
          enqueued p.msg.arg0 p.msg.arg1 p t h (client_get_ptr P p.msg.arg1 t) refl in
        some-Shows P fifo _ v _
          (subst
            (λ x. Shows P fifo (respond_wrte P x p.msg.arg0 p (view P fifo t)) (handle_wrte P p t))
            (sym (place_of-channels_of P fifo p.msg.arg1 t))
            (subst (Shows P fifo _)
              (sym (if-true t.online _ _ on ∙ rw (returned, nonzero, ◌>>=◌) refl)) shows))
          (ap some (sym (if-true t.online _ (view P fifo t) on)) ∙ e)
  ]
