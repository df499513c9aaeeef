-- ===== src/Transport/Wire/Auth.antt =====
-- The two answers to an AUTH token: each returns on a running transport, and sends exactly its message.
use adb_server_project.Common.{
  ℕ, ◌+◌, ◌≡◌, refl, inl, inr, false, List, [], ◌∷◌, Option, none, some, arith, length,
  length-append, Bool-cases, Option-cases, ◌==◌, if◌then◌else◌, ltb,
}
use adb_server_project.Common.Exec.{◌>>=◌}
use adb_server_project.Platform.{Platform, IsFifo}
use adb_server_project.Transport.State.{Transport}
use adb_server_project.Transport.Packets.{get_apacket, put_apacket}
use adb_server_project.Common.{sym, subst}
use adb_server_project.Packet.{a_auth, max_payload}
use adb_server_project.Auth.{auth_signature, auth_rsapublickey, adb_auth_get_userkey}
use adb_server_project.Transport.Send.{
  send_packet, send_auth_response, send_auth_publickey, with_command, with_payload,
}
use adb_server_project.Transport.Wire.{IsRunning, Sends, Sends-bind, signed_wires, public_wires}
use adb_server_project.Transport.Wire.Send.{
  payload-fits, send_new-Sends, get_apacket-Sends, put_apacket-Sends,
}

module _ (P : Platform) (fifo : IsFifo P) where
  -- The packet that was taken for an answer goes back.
  refused :
      (t : Transport P)
      → IsRunning P fifo t
      → Sends P fifo t [] ((get_apacket P >>= λ p. put_apacket P (some p)) t)
  refused t h =
      Sends-bind P fifo t [] [] (get_apacket P) (λ p. put_apacket P (some p))
        (get_apacket-Sends P fifo t h) (λ p u running frame. put_apacket-Sends P fifo p u running)

  -- The signature of a token goes out, or nothing where the key gives none.
  pub send_auth_response-Sends :
      (key : ℕ) (token : List ℕ) (t : Transport P)
      → IsRunning P fifo t
      → Sends P fifo t (signed_wires (P.rsa_sign key token)) (send_auth_response P key token t)
  unfolding send_auth_response
  send_auth_response-Sends key token t h = elim (Option-cases (P.rsa_sign key token)) [
    | inl e ↦ rw (e, send_auth_response) (refused t h)
    | inr ([], e) ↦ rw (e, send_auth_response) (refused t h)
    | inr (b ∷ bs, e) ↦
        rw (e, send_auth_response)
          (send_new-Sends P fifo _ _ t (payload-fits P fifo (b ∷ bs) a_auth auth_signature 0) h)
  ]

  userkey-length :
      (file : Option (List ℕ)) (n : ℕ)
      → (adb_auth_get_userkey file n).1 ≡ length (adb_auth_get_userkey file n).0
  unfolding adb_auth_get_userkey
  userkey-length none n = refl
  userkey-length (some file) n = elim (Bool-cases (ltb n (length file + 1))) [
    | inl e ↦ rw e refl
    | inr e ↦ rw e (omega (arith, length-append file (0 ∷ [])))
  ]

  -- The public key goes out, or nothing where there is none.
  publickey-Sends :
      (bytes : List ℕ) (t : Transport P)
      → IsRunning P fifo t
      → Sends P fifo t (public_wires (bytes, length bytes)) (
          (get_apacket P >>= λ p.
          if length bytes == 0
          then put_apacket P (some p)
          else send_packet P
              (with_payload bytes (with_command a_auth auth_rsapublickey 0 (length bytes) p)))
            t)
  publickey-Sends [] t h = refused t h
  publickey-Sends (b ∷ bs) t h =
      let some_bytes : (length (b ∷ bs) == 0) ≡ false = ground arith in
      rw some_bytes (
        send_new-Sends P fifo
          (λ p. with_payload (b ∷ bs) (with_command a_auth auth_rsapublickey 0 (length (b ∷ bs)) p))
          _ t (payload-fits P fifo (b ∷ bs) a_auth auth_rsapublickey 0) h)

  pub send_auth_publickey-Sends :
      (t : Transport P)
      → IsRunning P fifo t
      → Sends P fifo t
          (public_wires (adb_auth_get_userkey P.load_user_key max_payload))
          (send_auth_publickey P t)
  unfolding send_auth_publickey
  send_auth_publickey-Sends t h =
      let r = adb_auth_get_userkey P.load_user_key max_payload in
      subst
        (λ (n : ℕ). Sends P fifo t (public_wires (r.0, n)) (
          (get_apacket P >>= λ p.
          if n == 0
          then put_apacket P (some p)
          else send_packet P (with_payload r.0 (with_command a_auth auth_rsapublickey 0 n p)))
            t))
        (sym (userkey-length P.load_user_key max_payload)) (publickey-Sends r.0 t h)
