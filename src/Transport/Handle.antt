-- ===== src/Transport/Handle.antt =====
-- handle_packet, which the user thread calls for each packet of the device, and the delivery to a
-- channel, local_client_enqueue.
use adb_server_project.Common.{
  ℕ, zero, Bool, true, false, ◌||◌, not, none, some, if◌then◌else◌, ltb, length, ◌==◌, take,
}
use adb_server_project.Common.Int.{ℤ, pos, negsuc, ◌+ℤ◌}
use adb_server_project.Common.Exec.{Exec, pure, modify, ◌>>=◌, ◌>>◌}
use adb_server_project.Packet.{Apacket, a_sync, a_cnxn, a_auth, a_open, a_okay, a_clse, a_wrte}
use adb_server_project.Banner.{ConnectionState, Quals, offline, device, parse_banner}
use adb_server_project.Auth.{auth_token, adb_auth_nextkey}
use adb_server_project.Platform.{Platform}
use adb_server_project.Transport.State.{Transport, close}
use adb_server_project.Transport.Packets.{put_apacket}
use adb_server_project.Transport.Send.{
  send_packet, send_connect, send_ready, send_close, send_auth_response, send_auth_publickey,
}
use adb_server_project.Transport.Clients.{client_get_ptr, update_client, notify}

abbrev pub is_state : ConnectionState → ConnectionState → Bool
is_state offline offline = true
is_state device device = true
is_state _ _ = false

-- The cases of the switch on the command word.
pub data Command : Type 0 where
  sync cnxn auth opens okay clse wrte unknown : Command

unfoldable pub command_of : ℕ → Command
command_of word =
    if word == a_sync
    then sync
    else (if word == a_cnxn
        then cnxn
        else (if word == a_auth
            then auth
            else (if word == a_open
                then opens
                else (if word == a_okay
                    then okay
                    else (if word == a_clse
                        then clse
                        else (if word == a_wrte then wrte else unknown))))))

module _ (P : Platform) where
  -- The packet's owner changes: the channel's queue, or the pool where the channel is gone. Returns
  -- 1 or -1. Where the push fails the loop goes on until the device or the user is gone.
  unfoldable pub local_client_enqueue : ℕ → ℕ → Apacket → Exec (Transport P) ℤ
  unfolding client_get_ptr put_apacket send_close ◌+ℤ◌
  local_client_enqueue remote_arg0 local_arg1 p t = elim (client_get_ptr P local_arg1 t) [
    | none ↦ (do put_apacket P (some p); send_close P 0 remote_arg0; pure (negsuc 0)) t
    | some (i, bip) ↦ elim (P.push p bip.ptrlist) [
      | some q ↦ some (
        pos 1,
        update_client P i (λ a. notify P 1 (record a { ptrlist = q; remote_id = remote_arg0 })) t,
      )
      | none ↦
          if t.kicked || not bip.user
          then (do
            put_apacket P (some p)
            if t.kicked then pure tt else send_close P 0 remote_arg0
            modify (update_client P i (notify P 1))
            pure (negsuc 0))
              t
          else none
    ]
  ]

  -- `connection_state = CS_OFFLINE; handle_offline();`
  abbrev pub go_offline : Transport P → Transport P
  go_offline t = record t { connection_state = offline; online = false }

  -- A_SYNC: the packet goes back to the device's side.
  unfoldable pub handle_sync : Apacket → Exec (Transport P) (Unit {0})
  unfolding send_packet send_connect
  handle_sync p =
      if p.msg.arg0 == 0
      then (do modify go_offline; send_packet P p)
      else (do send_packet P p; send_connect P)

  abbrev pub set_banner : ConnectionState × Quals → Transport P → Transport P
  set_banner (state, quals) t = record t { connection_state = state; quals = quals }

  abbrev pub leave_online : Transport P → Transport P
  leave_online t = if is_state t.connection_state offline then t else go_offline t

  -- What the banner says is stored, and the transport goes online, once.
  abbrev pub take_banner : Apacket → Exec (Transport P) (Unit {0})
  take_banner p t = elim (parse_banner p.payload t.quals) [
    | none ↦ none
    | some banner ↦
        let t' = set_banner banner t in
        if t'.online
        then pure tt t'
        else (let t'' = record t' { online = true } in
            if is_state t''.connection_state device then pure tt t'' else send_connect P t'')
  ]

  -- A further CNXN takes the transport offline first.
  unfoldable pub handle_cnxn : Apacket → Exec (Transport P) (Unit {0})
  unfolding send_connect
  handle_cnxn p = do modify leave_online; take_banner p

  unfoldable pub handle_auth : Apacket → Exec (Transport P) (Unit {0})
  unfolding adb_auth_nextkey send_auth_response send_auth_publickey
  handle_auth p t =
      if p.msg.arg0 == auth_token
      then (let key = adb_auth_nextkey P.key_list t.key in
          let t' = record t { key = key } in
          elim key [
            | none ↦ send_auth_publickey P t'
            | some k ↦
                if ltb (length p.payload) p.msg.data_length
                then none
                else send_auth_response P k (take p.msg.data_length p.payload) t'
          ])
      else pure tt t

  -- arg0 is the device's id and arg1 the channel's.
  unfoldable pub handle_okay : Apacket → Exec (Transport P) (Unit {0})
  unfolding client_get_ptr send_ready send_close ◌+ℤ◌
  handle_okay p t = elim (client_get_ptr P p.msg.arg1 t) [
    | none ↦ (if t.online then send_close P 0 p.msg.arg0 else pure tt) t
    | some (i, bip) ↦
        (do
          if t.online then send_ready P p.msg.arg1 p.msg.arg0 else pure tt
          modify (
              update_client P i
                (λ a. notify P 1 (record a { remote_id = p.msg.arg0; connected = true }))))
          t
  ]

  -- The channel is closed on the host's side and its user woken.
  abbrev pub close_channel : ℕ → Exec (Transport P) (Unit {0})
  close_channel id t = elim (client_get_ptr P id t) [
    | none ↦ pure tt t
    | some (i, bip) ↦ pure tt (
        update_client P i
          (λ a. notify P 1 (record a { biptype = close; remote_id = 0; connected = false })) t)
  ]

  unfoldable pub handle_clse : Apacket → Exec (Transport P) (Unit {0})
  unfolding client_get_ptr send_close ◌+ℤ◌
  handle_clse p = do
    λ t. (if t.online then send_close P 0 p.msg.arg0 else pure tt) t
    close_channel p.msg.arg1

  -- A receipt would be sent for a result of 0, which local_client_enqueue never returns.
  abbrev pub is_zero : ℤ → Bool
  is_zero (pos zero) = true
  is_zero _ = false

  unfoldable pub handle_wrte : Apacket → Exec (Transport P) (Unit {0})
  unfolding local_client_enqueue send_ready put_apacket
  handle_wrte p t =
      if t.online
      then (do
        r ← local_client_enqueue p.msg.arg0 p.msg.arg1 p
        if is_zero r then send_ready P p.msg.arg1 p.msg.arg0 else pure tt)
          t
      else put_apacket P (some p) t

  -- The switch: every case but A_SYNC and an online A_WRTE gives the packet back.
  unfoldable pub handle_command : Command → Apacket → Exec (Transport P) (Unit {0})
  unfolding handle_sync handle_cnxn handle_auth handle_okay handle_clse handle_wrte put_apacket
  handle_command sync p = handle_sync p
  handle_command cnxn p = handle_cnxn p >> put_apacket P (some p)
  handle_command auth p = handle_auth p >> put_apacket P (some p)
  handle_command opens p = put_apacket P (some p)
  handle_command okay p = handle_okay p >> put_apacket P (some p)
  handle_command clse p = handle_clse p >> put_apacket P (some p)
  handle_command wrte p = handle_wrte p
  handle_command unknown p = put_apacket P (some p)

  unfoldable pub handle_packet : Apacket → Exec (Transport P) (Unit {0})
  unfolding handle_command command_of
  handle_packet p = handle_command (command_of p.msg.command) p
