-- ===== src/Transport/Send.antt =====
-- The packets that the transport sends to the device: send_packet and its callers.
use adb_server_project.Common.{
  ℕ, List, [], ◌∷◌, ◌++◌, none, some, if◌then◌else◌, ◌==◌, ltb, drop, length,
}
use adb_server_project.Common.Exec.{Exec, pure, ◌>>=◌}
use adb_server_project.CString.{codes}
use adb_server_project.Packet.{
  Apacket, seal_packet, max_payload, a_auth, a_cnxn, a_okay, a_clse, a_version,
}
use adb_server_project.Auth.{auth_signature, auth_rsapublickey, adb_auth_get_userkey}
use adb_server_project.Platform.{Platform}
use adb_server_project.Transport.State.{Transport}
use adb_server_project.Transport.Packets.{get_apacket, put_apacket, write_packet}

-- memcpy to the start of an array.
abbrev pub overwrite : List ℕ → List ℕ → List ℕ
overwrite bytes array = bytes ++ drop (length bytes) array

-- A packet with the fields of a command set.
abbrev pub with_command : ℕ → ℕ → ℕ → ℕ → Apacket → Apacket
with_command command arg0 arg1 data_length p = record p {
  msg = record p.msg { command = command; arg0 = arg0; arg1 = arg1; data_length = data_length };
}

abbrev pub with_payload : List ℕ → Apacket → Apacket
with_payload bytes p = record p { payload = overwrite bytes p.payload }

-- fill_connect_data.
abbrev pub connect_data : List ℕ
connect_data = codes "host::" ++ 0 ∷ []

module _ (P : Platform) where
  -- The result of write_packet is not looked at.
  unfoldable pub send_packet : Apacket → Exec (Transport P) (Unit {0})
  unfolding write_packet
  send_packet p t = elim (seal_packet p) [
    | none ↦ none
    | some q ↦ elim (write_packet P t.transport_socket q t) [
      | none ↦ none
      | some (_, t') ↦ some (tt, t')
    ]
  ]

  unfoldable pub send_connect : Exec (Transport P) (Unit {0})
  unfolding get_apacket send_packet
  send_connect = do
    cp ← get_apacket P
    send_packet (
        with_payload connect_data
          (with_command a_cnxn a_version max_payload (length connect_data) cp))

  unfoldable pub send_ready : ℕ → ℕ → Exec (Transport P) (Unit {0})
  unfolding get_apacket send_packet
  send_ready local remote =
      if ltb 0 remote
      then (do p ← get_apacket P; send_packet (with_command a_okay local remote 0 p))
      else pure tt

  unfoldable pub send_close : ℕ → ℕ → Exec (Transport P) (Unit {0})
  unfolding get_apacket send_packet
  send_close local remote =
      if ltb 0 remote
      then (do p ← get_apacket P; send_packet (with_command a_clse local remote 0 p))
      else pure tt

  -- The signature of the token, or nothing where signing fails.
  unfoldable pub send_auth_response : ℕ → List ℕ → Exec (Transport P) (Unit {0})
  unfolding get_apacket put_apacket send_packet
  send_auth_response key token = do
    p ← get_apacket P
    elim (P.rsa_sign key token) [
      | none ↦ put_apacket P (some p)
      | some [] ↦ put_apacket P (some p)
      | some (b ∷ sig) ↦
          send_packet
            (with_payload (b ∷ sig) (with_command a_auth auth_signature 0 (length (b ∷ sig)) p))
    ]

  unfoldable pub send_auth_publickey : Exec (Transport P) (Unit {0})
  unfolding get_apacket put_apacket send_packet adb_auth_get_userkey
  send_auth_publickey = do
    p ← get_apacket P
    let r = adb_auth_get_userkey P.load_user_key max_payload
    (if r.1 == 0
        then put_apacket P (some p)
        else send_packet (with_payload r.0 (with_command a_auth auth_rsapublickey 0 r.1 p)))
