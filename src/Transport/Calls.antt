-- ===== src/Transport/Calls.antt =====
-- The calls of a user that open a channel (Catransport.cpp): connect_to_remote,
-- smart_local_remote_enqueue and local_client_type_set. The children have the calls built on them.
pub mod Reset
pub mod Shell
pub mod Channels
use adb_server_project.Common.{
  ℕ, zero, suc, ◌+◌, ◌^◌, ◌≡◌, Bool, true, false, ◌&&◌, ◌||◌, not, List, [], ◌∷◌, ◌++◌, Option,
  none, some, if◌then◌else◌, ◌==◌, ltb, length,
}
use adb_server_project.Common.Int.{ℤ, pos, negsuc}
use adb_server_project.Common.Exec.{Exec, pure, modify, ◌>>=◌, ◌>>◌}
use adb_server_project.CString.{codes}
use adb_server_project.Packet.{Apacket, Status, success, failure, fault, max_payload, a_open}
use adb_server_project.Banner.{device}
use adb_server_project.Platform.{Platform}
use adb_server_project.Transport.State.{
  Transport, Aclient, BipbufferType, close, shell_sync, shell_async, file_sync, forward, un_device,
  device_offline,
}
use adb_server_project.Transport.Packets.{get_apacket, put_apacket}
use adb_server_project.Transport.Send.{
  send_packet, send_ready, send_close, with_command, with_payload,
}
use adb_server_project.Transport.Clients.{slot, client_get_ptr, client_clear, update_client}
use adb_server_project.Transport.Handle.{is_state}
use adb_server_project.Transport.Session.{Session, lift, wait}
use adb_server_project.Transport.Users.{is_type, local_remote_enqueue, client_write}
use adb_server_project.Transport.Read.{client_read}

-- strncmp of a string with the start of another.
abbrev pub starts_with : List ℕ → List ℕ → Bool
starts_with [] s = true
starts_with (c ∷ prefix) [] = false
starts_with (c ∷ prefix) (d ∷ s) = if c == d then starts_with prefix s else false

-- A service of the host, for which no channel is opened.
abbrev pub is_host_service : List ℕ → Bool
is_host_service s =
    starts_with (codes "host-serial:") s
    || (starts_with (codes "host-usb:") s
        || (starts_with (codes "host-local:") s || starts_with (codes "host:") s))

module _ (P : Platform) where
  abbrev pub set_client : ℕ → (Aclient P → Aclient P) → Session P → Session P
  set_client i f s = record s { transport = update_client P i f s.transport }

  -- The aclient behind a pointer to a place; it is never deleted.
  abbrev pub at_place : ℕ → Session P → Option (Aclient P)
  at_place i s = slot P s.transport.userlist i

  abbrev pub wait_if_there : ℕ → Exec (Session P) (Unit {0})
  wait_if_there local_id s = elim (client_get_ptr P local_id s.transport) [
    | none ↦ some (tt, s)
    | some (i, a) ↦ wait P i 0 s
  ]

  -- The destination and its NUL go out in an A_OPEN; sprintf_s faults where they do not fit.
  unfoldable pub connect_to_remote : ℕ → List ℕ → Exec (Session P) (Unit {0})
  unfolding client_get_ptr get_apacket send_packet wait
  connect_to_remote local_id destination s =
      if ltb max_payload (length destination + 1)
      then none
      else (do
        lift P (do
          p ← get_apacket P
          send_packet P (
              with_payload (destination ++ 0 ∷ [])
                (with_command a_open local_id p.msg.arg1 (length destination + 1) p)))
        wait_if_there local_id)
          s

  -- The answer that has come by the end of the wait decides.
  abbrev pub is_refused : ℕ → Session P → Bool
  is_refused local_id s = elim (client_get_ptr P local_id s.transport) [
    | none ↦ false
    | some (i, a) ↦ not a.connected
  ]

  unfoldable pub smart_local_remote_enqueue : ℕ → List ℕ → Exec (Session P) Status
  unfolding client_get_ptr connect_to_remote
  smart_local_remote_enqueue local_id destination s =
      if not (is_state s.transport.connection_state device)
      then some (failure, record s { transport = record s.transport { t_error = un_device } })
      else (if ltb (length destination) 4
          then some (success, s)
          else (if ltb 1024 (length destination)
              then some (failure, s)
              else (if is_host_service destination
                  then some (success, s)
                  else elim (connect_to_remote local_id destination s) [
                    | none ↦ none
                    | some (_, s') ↦
                        if is_refused local_id s' then some (failure, s') else some (success, s')
                  ])))

  -- A loop that waits on the channel while a condition on it holds; -1 where the device is gone.
  unfoldable pub wait_while : (Aclient P → Bool) → ℕ → ℕ → Exec (Session P) Status
  unfolding wait
  wait_while waiting zero i s = none
  wait_while waiting (suc fuel) i s = elim (at_place i s) [
    | none ↦ none
    | some a ↦
        if waiting a
        then (if s.transport.kicked
            then some
                (failure, record s { transport = record s.transport { t_error = device_offline } })
            else elim (wait P i 0 s) [ none ↦ none | some (_, s') ↦ wait_while waiting fuel i s' ])
        else some (success, s)
  ]

  -- The channel's present use has not been answered yet.
  abbrev pub is_opening : Aclient P → Bool
  is_opening a = (a.remote_id == 0) && not (is_type a.biptype close)

  abbrev pub is_open : Aclient P → Bool
  is_open a = not (is_type a.biptype close)

  -- Both messages that close the device's end, where its id is a positive `int`.
  unfoldable pub close_remote : ℕ → ℕ → Exec (Session P) (Unit {0})
  unfolding send_ready send_close
  close_remote local_id i s = elim (at_place i s) [
    | none ↦ none
    | some a ↦
        if ltb 0 a.remote_id && ltb a.remote_id (2 ^ 31)
        then (do
          modify (set_client i (λ c. record c { closing = true }))
          lift P (send_ready P local_id a.remote_id)
          lift P (send_close P 0 a.remote_id))
            s
        else some (tt, s)
  ]

  -- client_clear, and the new type.
  unfoldable pub reset_channel : ℕ → BipbufferType → ℕ → Exec (Session P) Status
  unfolding client_clear
  reset_channel fuel type i s = elim (at_place i s) [
    | none ↦ none
    | some a ↦ elim (lift P (client_clear P fuel a) s) [
      | none ↦ none
      | some (b, s') ↦
          some (success, set_client i (λ c. record b { closing = false; biptype = type }) s')
    ]
  ]

  -- Waits for the answer to the channel's present use, closes it, and waits until it is closed.
  unfoldable pub finish_use : ℕ → ℕ → ℕ → Exec (Session P) Status
  unfolding wait_while close_remote
  finish_use fuel local_id i s = elim (wait_while is_opening fuel i s) [
    | none ↦ none
    | some (success, s1) ↦ elim (close_remote local_id i s1) [
      | none ↦ none
      | some (_, s2) ↦ wait_while is_open fuel i s2
    ]
    | some (_, s1) ↦ some (failure, s1)
  ]

  unfoldable pub local_client_type_set : ℕ → BipbufferType → ℕ → Exec (Session P) Status
  unfolding client_get_ptr finish_use reset_channel
  local_client_type_set fuel type local_id s = elim (client_get_ptr P local_id s.transport) [
    | none ↦ some (failure, s)
    | some (i, a) ↦
        if is_type a.biptype close
        then reset_channel fuel type i s
        else elim (finish_use fuel local_id i s) [
          | none ↦ none
          | some (success, s') ↦ reset_channel fuel type i s'
          | some (_, s') ↦ some (failure, s')
        ]
  ]
