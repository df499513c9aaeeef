-- ===== src/Transport/View/Commands.antt =====
-- A_SYNC, A_CNXN, A_AUTH and A_OKAY against their promises.
use adb_server_project.Common.{
  length, ltb, arith, ℕ, ◌≡◌, refl, inl, inr, Bool, true, false, List, [], ◌∷◌, Option, none, some,
  Bool-cases, Option-cases, ◌==◌, if◌then◌else◌, take,
}
use adb_server_project.Common.Exec.{Exec, pure}
use adb_server_project.Packet.{Apacket}
use adb_server_project.Platform.{Platform, IsFifo}
use adb_server_project.Transport.State.{Transport}
use adb_server_project.Common.{sym, if-false, if-true, subst}
use adb_server_project.Transport.Send.{
  send_packet, send_connect, send_ready, send_close, send_auth_response, send_auth_publickey,
}
use adb_server_project.Transport.Wire.{
  Wire, wire, IsRunning, Sends, Sends-then, ready_wires, close_wires, connect_wire,
}
use adb_server_project.Banner.{parse_banner, Quals, ConnectionState, offline, device}
use adb_server_project.Auth.{auth_token, adb_auth_nextkey}
use adb_server_project.Transport.Clients.{client_get_ptr}
use adb_server_project.Transport.Handle.{
  handle_sync, handle_cnxn, handle_auth, handle_okay, sync, cnxn, auth, okay, is_state, go_offline,
  set_banner, take_banner,
}
use adb_server_project.Transport.Wire.Send.{
  send_packet-Sends, send_connect-Sends, send_ready-Sends, send_close-Sends,
}
use adb_server_project.Transport.Wire.Auth.{send_auth_response-Sends, send_auth_publickey-Sends}
use adb_server_project.Transport.View.{
  View, view, respond, send, if_online, signalled, connect, auth_wires,
}
use adb_server_project.Transport.View.Channels.{place_of-channels_of}
use adb_server_project.Transport.View.Refine.{
  Shows, Sends-Shows, Shows-then, own_fields-IsRunning, update_client-Shows, if_online-Shows,
  some-Shows, Meets,
}

module _ (P : Platform) (fifo : IsFifo P) where
  pub handle_sync-Meets : Meets P fifo sync (handle_sync P)
  unfolding handle_sync respond
  handle_sync-Meets p t v fits h e = elim (Bool-cases (p.msg.arg0 == 0)) [
    | inl z ↦
        some-Shows P fifo _ v _
          (rw (z, handle_sync)
            (Sends-Shows P fifo (go_offline P t) (wire p ∷ []) _ (
              send_packet-Sends P fifo p (go_offline P t) fits
                (own_fields-IsRunning P fifo t _ _ _ _ _ h))))
          (rw z at e)
    | inr z ↦
        some-Shows P fifo _ v _
          (rw (z, handle_sync)
            (Sends-Shows P fifo t (wire p ∷ connect_wire ∷ []) _ (
              Sends-then P fifo t (wire p ∷ []) (connect_wire ∷ []) (send_packet P p)
                (send_connect P) (send_packet-Sends P fifo p t fits h)
                (λ u running frame. send_connect-Sends P fifo u running))))
          (rw z at e)
  ]

  -- A view that a run leaves as it is.
  pub stay-Shows :
      (t : Transport P) → IsRunning P fifo t → Shows P fifo (view P fifo t) (some (tt, t))
  stay-Shows t h = record { after = t; returned = refl; running = h; seen = refl }

  go_on-Shows :
      (v : View) (t : Transport P) (m : Exec (Transport P) (Unit {0})) (ws : List Wire)
      → Sends P fifo t ws (m t)
      → send ws (view P fifo t) ≡ v
      → Shows P fifo v (m t)
  go_on-Shows v t m ws s e = subst (λ x. Shows P fifo x (m t)) e (Sends-Shows P fifo t ws (m t) s)

  take_banner-Shows :
      (p : Apacket) (t : Transport P) (state : ConnectionState) (quals : Quals)
      → IsRunning P fifo t
      → parse_banner p.payload t.quals ≡ some (state, quals)
      → Shows P fifo (connect P t.online (state, quals) (view P fifo t)) (take_banner P p t)
  take_banner-Shows p t state quals h good = rw (good, take_banner) (connected t.online)
    where
      connected :
          (online : Bool)
          → Shows P fifo (connect P online (state, quals) (view P fifo t)) (
              let t' = set_banner P (state, quals) (record t { online = online }) in
              if t'.online
              then pure tt t'
              else (let t'' = record t' { online = true } in
                  if is_state t''.connection_state device then pure tt t'' else send_connect P t''))
      connected true = stay-Shows _ (own_fields-IsRunning P fifo t _ _ _ _ _ h)
      connected false = elim (Bool-cases (is_state state device)) [
        | inl e ↦ rw e (stay-Shows _ (own_fields-IsRunning P fifo t _ _ _ _ _ h))
        | inr e ↦ rw e (
            Sends-Shows P fifo _ (connect_wire ∷ []) _
              (send_connect-Sends P fifo _ (own_fields-IsRunning P fifo t _ _ _ _ _ h)))
      ]

  pub handle_cnxn-Meets : Meets P fifo cnxn (handle_cnxn P)
  unfolding handle_cnxn respond
  handle_cnxn-Meets p t v fits h e = elim (Option-cases (parse_banner p.payload t.quals)) [
    | inl bad ↦ let never : none ≡ some v = rw bad at e in cc
    | inr ((state, quals), good) ↦ elim (Bool-cases (is_state t.connection_state offline)) [
      | inl off ↦
          some-Shows P fifo _ v _
            (subst
              (λ u.
                Shows P fifo (connect P t.online (state, quals) (view P fifo t))
                  (take_banner P p u))
              (sym (if-true (is_state t.connection_state offline) t (go_offline P t) off))
              (take_banner-Shows p t state quals h good))
            (rw (good, off) at e)
      | inr on ↦
          some-Shows P fifo _ v _
            (subst
              (λ u.
                Shows P fifo (connect P false (state, quals) (view P fifo t)) (take_banner P p u))
              (sym (if-false (is_state t.connection_state offline) t (go_offline P t) on))
              (take_banner-Shows p (go_offline P t) state quals
                (own_fields-IsRunning P fifo t _ _ _ _ _ h) good))
            (rw (good, on) at e)
    ]
  ]

  pub handle_auth-Meets : Meets P fifo auth (handle_auth P)
  unfolding handle_auth respond
  handle_auth-Meets p t v fits h e = elim (Bool-cases (p.msg.arg0 == auth_token)) [
    | inr other ↦ some-Shows P fifo _ v _ (rw other (stay-Shows t h)) (rw other at e)
    | inl token ↦
        let key = adb_auth_nextkey P.key_list t.key in
        some-Shows P fifo _ v _
          (rw token
            (answer key (record t { key = key }) (own_fields-IsRunning P fifo t _ _ _ _ _ h)))
          (rw token at e)
  ]
    where
      answer :
          (key : Option ℕ) (u : Transport P)
          → IsRunning P fifo u
          → Shows P fifo (send (auth_wires P key p) (view P fifo u)) (elim key [
            | none ↦ send_auth_publickey P u
            | some k ↦
                if ltb (length p.payload) p.msg.data_length
                then none
                else send_auth_response P k (take p.msg.data_length p.payload) u
          ])
      answer none u running = Sends-Shows P fifo u _ _ (send_auth_publickey-Sends P fifo u running)
      answer (some k) u running =
          let inside : ltb (length p.payload) p.msg.data_length ≡ false = ground (arith, fits) in
          rw inside (
            Sends-Shows P fifo u _ _
              (send_auth_response-Sends P fifo k (take p.msg.data_length p.payload) u running))

  pub handle_okay-Meets : Meets P fifo okay (handle_okay P)
  unfolding handle_okay respond
  handle_okay-Meets p t v fits h e = elim (Option-cases (client_get_ptr P p.msg.arg1 t)) [
    | inl gone ↦
        some-Shows P fifo _ v _
          (rw (gone, handle_okay)
            (if_online-Shows P fifo t (close_wires 0 p.msg.arg0) (send_close P 0 p.msg.arg0) h
              (send_close-Sends P fifo 0 p.msg.arg0 t h)))
          (rw (place_of-channels_of P fifo p.msg.arg1 t, gone) at e)
    | inr ((i, a), found) ↦
        some-Shows P fifo _ v _
          (rw (found, handle_okay)
            (Shows-then P fifo
              (send (if_online (view P fifo t) (ready_wires p.msg.arg1 p.msg.arg0)) (view P fifo t))
              _ (if t.online then send_ready P p.msg.arg1 p.msg.arg0 else pure tt) _ t
              (if_online-Shows P fifo t (ready_wires p.msg.arg1 p.msg.arg0)
                (send_ready P p.msg.arg1 p.msg.arg0) h
                (send_ready-Sends P fifo p.msg.arg1 p.msg.arg0 t h))
              (λ u running seen.
                update_client-Shows P fifo _ i _
                  (λ c. signalled (record c { remote_id = p.msg.arg0; connected = true })) u running
                  (λ b at. refl) seen)))
          (rw (place_of-channels_of P fifo p.msg.arg1 t, found) at e)
  ]
