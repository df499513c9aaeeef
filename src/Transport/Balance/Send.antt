-- ===== src/Transport/Balance/Send.antt =====
-- The sending operations balance the packets: each takes one and gives it to the device's side.
use adb_server_project.Common.{
  ℕ, ◌+◌, inl, inr, List, [], ◌∷◌, Option, none, some, length, Bool-cases, Option-cases, ◌==◌, ltb,
}
use adb_server_project.Common.Exec.{◌>>=◌}
use adb_server_project.Packet.{Apacket, seal_packet}
use adb_server_project.Platform.{Platform, IsFifo}
use adb_server_project.Transport.State.{Transport}
use adb_server_project.Transport.Packets.{
  get_apacket, put_apacket, write_packet, write_by_type, signal_reader,
}
use adb_server_project.Transport.Send.{
  send_packet, send_connect, send_ready, send_close, send_auth_response, send_auth_publickey,
  with_command, with_payload,
}
use adb_server_project.Transport.Balance.{
  IsBalanced, After, Balances, get_apacket-Balances, put_apacket-Balances, >>=-Balances,
  if-Balances, usb_write_packet-Balances,
}

module _ (P : Platform) (fifo : IsFifo P) where
  write_by_type-Balances :
      (hands f : ℕ) (p : Apacket) → Balances P fifo (hands + 1) (write_by_type P f p) hands
  unfolding write_by_type
  write_by_type-Balances hands f p t b =
      rw (b.1, write_by_type) (usb_write_packet-Balances P fifo hands f p t b)

  signal_reader-IsBalanced :
      (hands f : ℕ) (t : Transport P)
      → IsBalanced P fifo hands t
      → IsBalanced P fifo hands (signal_reader P f t)
  signal_reader-IsBalanced hands f t b = elim (Bool-cases (f == t.fd)) [
    | inl e ↦ rw e b
    | inr e ↦ rw e b
  ]

  pub write_packet-Balances :
      (hands f : ℕ) (p : Apacket) → Balances P fifo (hands + 1) (write_packet P f p) hands
  unfolding write_packet
  write_packet-Balances hands f p =
      >>=-Balances P fifo (hands + 1) hands hands (write_by_type P f p) _
        (write_by_type-Balances hands f p) (λ ret t b. signal_reader-IsBalanced hands f t b)

  pub send_packet-Balances :
      (hands : ℕ) (p : Apacket) → Balances P fifo (hands + 1) (send_packet P p) hands
  unfolding send_packet
  send_packet-Balances hands p t b = elim (Option-cases (seal_packet p)) [
    | inl e ↦ rw (e, send_packet) tt
    | inr (q, e) ↦ elim (Option-cases (write_packet P t.transport_socket q t)) [
      | inl u ↦ rw (e, u, send_packet) tt
      | inr ((ret, t'), u) ↦
          rw (e, u, send_packet)
            (rw (u, After) at (write_packet-Balances hands t.transport_socket q t b))
    ]
  ]

  -- A fresh packet, prepared by `f`, is sent.
  pub send_new-Balances :
      (hands : ℕ) (f : Apacket → Apacket)
      → Balances P fifo hands (get_apacket P >>= λ p. send_packet P (f p)) hands
  send_new-Balances hands f =
      >>=-Balances P fifo hands (hands + 1) hands (get_apacket P) _
        (get_apacket-Balances P fifo hands) (λ p. send_packet-Balances hands (f p))

  pub send_connect-Balances : (hands : ℕ) → Balances P fifo hands (send_connect P) hands
  unfolding send_connect
  send_connect-Balances hands = send_new-Balances hands _

  pub send_ready-Balances :
      (hands local remote : ℕ) → Balances P fifo hands (send_ready P local remote) hands
  unfolding send_ready
  send_ready-Balances hands local remote =
      if-Balances P fifo hands hands (ltb 0 remote) _ _ (send_new-Balances hands _) (λ t b. b)

  pub send_close-Balances :
      (hands local remote : ℕ) → Balances P fifo hands (send_close P local remote) hands
  unfolding send_close
  send_close-Balances hands local remote =
      if-Balances P fifo hands hands (ltb 0 remote) _ _ (send_new-Balances hands _) (λ t b. b)

  pub send_auth_response-Balances :
      (hands key : ℕ) (token : List ℕ)
      → Balances P fifo hands (send_auth_response P key token) hands
  unfolding send_auth_response
  send_auth_response-Balances hands key token =
      >>=-Balances P fifo hands (hands + 1) hands (get_apacket P) _
        (get_apacket-Balances P fifo hands) (λ p. signed (P.rsa_sign key token) p)
    where
      signed :
          (sig : Option (List ℕ)) (p : Apacket)
          → Balances P fifo
              (hands + 1)
              (elim sig [
                | none ↦ put_apacket P (some p)
                | some [] ↦ put_apacket P (some p)
                | some (b ∷ bs) ↦
                    send_packet P
                      (with_payload (b ∷ bs) (with_command 0x48545541 2 0 (length (b ∷ bs)) p))
              ])
              hands
      signed none p = put_apacket-Balances P fifo hands p
      signed (some []) p = put_apacket-Balances P fifo hands p
      signed (some (b ∷ bs)) p = send_packet-Balances hands _

  pub send_auth_publickey-Balances :
      (hands : ℕ) → Balances P fifo hands (send_auth_publickey P) hands
  unfolding send_auth_publickey
  send_auth_publickey-Balances hands =
      >>=-Balances P fifo hands (hands + 1) hands (get_apacket P) _
        (get_apacket-Balances P fifo hands)
        (λ p.
          if-Balances P fifo (hands + 1) hands _ _ _ (put_apacket-Balances P fifo hands p)
            (send_packet-Balances hands _))
