-- ===== src/Transport/Balance/Handle.antt =====
-- handle_packet balances the packets: the one that it was given ends in the pool, in a channel, on its
-- way to the device, or freed.
use adb_server_project.Common.{
  length, ltb, ℕ, zero, suc, ◌+◌, ◌≡◌, refl, inl, inr, Bool, true, false, List, [], ◌∷◌, Option,
  none, some, arith, Bool-cases, Option-cases, ◌==◌, if◌then◌else◌,
}
use adb_server_project.Common.Exec.{Exec, ◌>>◌, pure, modify}
use adb_server_project.Packet.{Apacket}
use adb_server_project.Platform.{Platform, IsFifo}
use adb_server_project.Transport.State.{Transport, Aclient}
use adb_server_project.Transport.Packets.{put_apacket}
use adb_server_project.Auth.{auth_token, adb_auth_nextkey}
use adb_server_project.Banner.{parse_banner, offline, device}
use adb_server_project.Transport.Clients.{slot, update_list, update_client, client_get_ptr, notify}
use adb_server_project.Transport.Clients.Lookup.{client_get_ptr-some}
use adb_server_project.Transport.Handle.{
  local_client_enqueue, handle_sync, handle_cnxn, handle_auth, handle_okay, handle_clse,
  handle_wrte, handle_packet, is_zero, is_state, go_offline, leave_online, handle_command,
  command_of, take_banner, close_channel, Command, sync, cnxn, auth, opens, okay, clse, wrte,
  unknown,
}
use adb_server_project.Transport.Balance.{
  IsBalanced, After, Balances, put_apacket-Balances, >>=-Balances, >>-Balances, if-Balances,
  if-After, push-length, held_client, held_clients,
}
use adb_server_project.Transport.Balance.Send.{
  send_packet-Balances, send_connect-Balances, send_ready-Balances, send_close-Balances,
  send_auth_response-Balances, send_auth_publickey-Balances,
}

module _ (P : Platform) (fifo : IsFifo P) where
  held_clients-update_list :
      (i : ℕ) (f : Aclient P → Aclient P) (l : List (Option (Aclient P))) (a : Aclient P)
      → slot P l i ≡ some a
      → held_clients P fifo (update_list P i f l) + held_client P fifo a
        ≡ held_clients P fifo l + held_client P fifo (f a)
  held_clients-update_list i f [] a e = cc
  held_clients-update_list zero f (none ∷ l) a e = cc
  held_clients-update_list zero f (some b ∷ l) a e = ground arith
  held_clients-update_list (suc i) f (none ∷ l) a e = held_clients-update_list i f l a e
  held_clients-update_list (suc i) f (some b ∷ l) a e =
      omega (arith, held_clients-update_list i f l a e)

  update_client-Balances :
      (hands i : ℕ) (f : Aclient P → Aclient P)
      → ((a : Aclient P) → held_client P fifo (f a) ≡ held_client P fifo a)
      → (t : Transport P) → IsBalanced P fifo hands t
      → IsBalanced P fifo hands (update_client P i f t)
  update_client-Balances hands i f same t b = (omega (arith, unchanged i t.userlist, b.0), b.1)
    where
      unchanged :
          (j : ℕ) (l : List (Option (Aclient P)))
          → held_clients P fifo (update_list P j f l) ≡ held_clients P fifo l
      unchanged j [] = refl
      unchanged zero (none ∷ l) = refl
      unchanged zero (some a ∷ l) = omega (arith, same a)
      unchanged (suc j) (none ∷ l) = unchanged j l
      unchanged (suc j) (some a ∷ l) = omega (arith, unchanged j l)

  local_client_enqueue-Balances :
      (hands remote local : ℕ) (p : Apacket)
      → Balances P fifo (hands + 1) (local_client_enqueue P remote local p) hands
  unfolding local_client_enqueue
  local_client_enqueue-Balances hands remote local p t b =
      elim (Option-cases (client_get_ptr P local t)) [
        | inl e ↦
            rw (e, local_client_enqueue)
              (>>-Balances P fifo (hands + 1) hands hands _ _ (put_apacket-Balances P fifo hands p)
                (>>-Balances P fifo hands hands hands _ _
                  (send_close-Balances P fifo hands 0 remote) (λ u c. c))
                t b)
        | inr ((i, a), e) ↦
            let (q, pushed, more) = push-length P fifo p a.ptrlist in
            rw (e, pushed, local_client_enqueue)
              (
                omega (
                  arith,
                  more,
                  b.0,
                  held_clients-update_list i
                      (λ c. notify P 1 (record c { ptrlist = q; remote_id = remote })) t.userlist a
                      (client_get_ptr-some P local i a t e).1,
                ),
                b.1,
              )
      ]

  handle_sync-Balances :
      (hands : ℕ) (p : Apacket) → Balances P fifo (hands + 1) (handle_sync P p) hands
  unfolding handle_sync
  handle_sync-Balances hands p =
      if-Balances P fifo (hands + 1) hands (p.msg.arg0 == 0) _ _
        (>>-Balances P fifo (hands + 1) (hands + 1) hands (modify (go_offline P)) _ (λ t b. b)
          (send_packet-Balances P fifo hands p))
        (>>-Balances P fifo (hands + 1) hands hands _ _ (send_packet-Balances P fifo hands p)
          (send_connect-Balances P fifo hands))

  -- The choice between going on and a further operation, on a transport that is already balanced.
  if-IsBalanced :
      (hands : ℕ) (c : Bool) (t : Transport P) (m n : Exec (Transport P) (Unit {0}))
      → Balances P fifo hands m hands
      → Balances P fifo hands n hands
      → IsBalanced P fifo hands t
      → After P fifo hands (if c then m t else n t)
  if-IsBalanced hands true t m n hm hn b = hm t b
  if-IsBalanced hands false t m n hm hn b = hn t b

  skip-Balances : (hands : ℕ) → Balances P fifo hands (pure {S = Transport P} tt) hands
  skip-Balances hands t b = b

  leave_online-Balances : (hands : ℕ) → Balances P fifo hands (modify (leave_online P)) hands
  leave_online-Balances hands t b = elim (Bool-cases (is_state t.connection_state offline)) [
    | inl e ↦ rw e b
    | inr e ↦ rw e b
  ]

  handle_cnxn-Balances : (hands : ℕ) (p : Apacket) → Balances P fifo hands (handle_cnxn P p) hands
  unfolding handle_cnxn
  handle_cnxn-Balances hands p =
      >>-Balances P fifo hands hands hands (modify (leave_online P)) _ (leave_online-Balances hands)
        parsed
    where
      parsed :
          (t : Transport P) → IsBalanced P fifo hands t → After P fifo hands (take_banner P p t)
      parsed t b = elim (Option-cases (parse_banner p.payload t.quals)) [
        | inl e ↦ rw (e, After, take_banner) tt
        | inr ((state, quals), e) ↦
            rw (e, take_banner)
              (if-After P fifo hands t.online _ _ b (
                if-After P fifo hands (is_state state device) _ _ b
                  (send_connect-Balances P fifo hands _ b)))
      ]

  handle_auth-Balances : (hands : ℕ) (p : Apacket) → Balances P fifo hands (handle_auth P p) hands
  unfolding handle_auth
  handle_auth-Balances hands p t b =
      if-After P fifo hands (p.msg.arg0 == auth_token) _ _
        (elim (Option-cases (adb_auth_nextkey P.key_list t.key)) [
          | inl e ↦ rw e (send_auth_publickey-Balances P fifo hands _ b)
          | inr (k, e) ↦ elim (Bool-cases (ltb (length p.payload) p.msg.data_length)) [
            | inl short ↦ rw (e, short) tt
            | inr whole ↦ rw (e, whole) (send_auth_response-Balances P fifo hands k _ _ b)
          ]
        ])
        b

  handle_okay-Balances : (hands : ℕ) (p : Apacket) → Balances P fifo hands (handle_okay P p) hands
  unfolding handle_okay
  handle_okay-Balances hands p t b = elim (Option-cases (client_get_ptr P p.msg.arg1 t)) [
    | inl e ↦
        rw (e, handle_okay)
          (if-Balances P fifo hands hands t.online _ _
            (send_close-Balances P fifo hands 0 p.msg.arg0) (skip-Balances hands) t b)
    | inr ((i, a), e) ↦
        rw (e, handle_okay)
          (>>-Balances P fifo hands hands hands _ _
            (if-Balances P fifo hands hands t.online _ _
              (send_ready-Balances P fifo hands p.msg.arg1 p.msg.arg0) (skip-Balances hands))
            (λ u c. update_client-Balances hands i _ (λ x. refl) u c) t b)
  ]

  handle_clse-Balances : (hands : ℕ) (p : Apacket) → Balances P fifo hands (handle_clse P p) hands
  unfolding handle_clse
  handle_clse-Balances hands p =
      >>-Balances P fifo hands hands hands _ _
        (λ t b.
          if-Balances P fifo hands hands t.online _ _
            (send_close-Balances P fifo hands 0 p.msg.arg0) (skip-Balances hands) t b)
        closed
    where
      closed :
          (t : Transport P)
          → IsBalanced P fifo hands t
          → After P fifo hands (close_channel P p.msg.arg1 t)
      closed t b = elim (Option-cases (client_get_ptr P p.msg.arg1 t)) [
        | inl e ↦ rw (e, close_channel) b
        | inr ((i, a), e) ↦ rw (e, close_channel) (update_client-Balances hands i _ (λ x. refl) t b)
      ]

  handle_wrte-Balances :
      (hands : ℕ) (p : Apacket) → Balances P fifo (hands + 1) (handle_wrte P p) hands
  unfolding handle_wrte
  handle_wrte-Balances hands p t b =
      if-After P fifo hands t.online _ _
        (>>=-Balances P fifo (hands + 1) hands hands _ _
          (local_client_enqueue-Balances hands p.msg.arg0 p.msg.arg1 p)
          (λ r.
            if-Balances P fifo hands hands (is_zero P r) _ _
              (send_ready-Balances P fifo hands p.msg.arg1 p.msg.arg0) (skip-Balances hands))
          t b)
        (put_apacket-Balances P fifo hands p t b)

  then_put-Balances :
      (p : Apacket) (m : Exec (Transport P) (Unit {0}))
      → Balances P fifo 1 m 1
      → Balances P fifo 1 (m >> put_apacket P (some p)) 0
  then_put-Balances p m hm =
      >>-Balances P fifo 1 1 0 m (put_apacket P (some p)) hm (put_apacket-Balances P fifo 0 p)

  handle_command-Balances : (c : Command) (p : Apacket) → Balances P fifo 1 (handle_command P c p) 0
  unfolding handle_command
  handle_command-Balances sync p = handle_sync-Balances 0 p
  handle_command-Balances cnxn p = then_put-Balances p (handle_cnxn P p) (handle_cnxn-Balances 1 p)
  handle_command-Balances auth p = then_put-Balances p (handle_auth P p) (handle_auth-Balances 1 p)
  handle_command-Balances opens p = put_apacket-Balances P fifo 0 p
  handle_command-Balances okay p = then_put-Balances p (handle_okay P p) (handle_okay-Balances 1 p)
  handle_command-Balances clse p = then_put-Balances p (handle_clse P p) (handle_clse-Balances 1 p)
  handle_command-Balances wrte p = handle_wrte-Balances 0 p
  handle_command-Balances unknown p = put_apacket-Balances P fifo 0 p

  -- handle_packet neither loses nor duplicates a packet: from a USB transport whose packets are all
  -- accounted for, with the received one in hand, each run that returns leaves all accounted for and
  -- none in hand, whatever the command and whether the device is online, closed or gone.
  pub handle_packet-Balances :
      (p : Apacket) (t t' : Transport P)
      → IsBalanced P fifo 1 t
      → handle_packet P p t ≡ some (tt, t')
      → IsBalanced P fifo 0 t'
  unfolding handle_packet
  handle_packet-Balances p t t' b e =
      rw (e, After) at (handle_command-Balances (command_of p.msg.command) p t b)
