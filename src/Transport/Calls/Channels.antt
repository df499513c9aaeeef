-- ===== src/Transport/Calls/Channels.antt =====
-- The forward and sync calls: a channel is opened for one use, and read and written for that use only.
use adb_server_project.Common.{
  ℕ, Bool, true, not, List, [], none, some, if◌then◌else◌, ◌==◌, length,
}
use adb_server_project.Common.Int.{ℤ, pos, negsuc}
use adb_server_project.Common.Exec.{Exec, ◌>>◌}
use adb_server_project.CString.{codes}
use adb_server_project.Packet.{Status, success, failure, fault}
use adb_server_project.Banner.{device}
use adb_server_project.Platform.{Platform}
use adb_server_project.Transport.State.{Transport, BipbufferType, file_sync, forward, un_device}
use adb_server_project.Transport.Packets.{put_apacket}
use adb_server_project.Transport.Clients.{client_get_ptr}
use adb_server_project.Transport.Handle.{is_state}
use adb_server_project.Transport.Session.{Session, lift}
use adb_server_project.Transport.Users.{is_type, client_write}
use adb_server_project.Transport.Read.{client_read}
use adb_server_project.Transport.Calls.{
  local_client_type_set, connect_to_remote, at_place, set_client,
}

module _ (P : Platform) where
  -- The left-over packet of a channel goes back before a new use.
  abbrev pub drop_last : ℕ → Exec (Session P) (Unit {0})
  drop_last i s = elim (at_place P i s) [
    | none ↦ none
    | some a ↦
        lift P (put_apacket P a.last_apacket)
          (set_client P i (λ c. record c { last_apacket = none }) s)
  ]

  abbrev pub connected_at : ℕ → Session P → Status
  connected_at i s = elim (at_place P i s) [
    | none ↦ fault
    | some a ↦ if a.connected then success else failure
  ]

  -- forward_connect and sync_connect.
  unfoldable pub open_channel : ℕ → BipbufferType → List ℕ → ℕ → Exec (Session P) Status
  unfolding client_get_ptr local_client_type_set put_apacket connect_to_remote
  open_channel fuel type remote local_id s = elim (client_get_ptr P local_id s.transport) [
    | none ↦ some (failure, s)
    | some (i, a) ↦
        if length remote == 0
        then some (failure, s)
        else (if not (is_state s.transport.connection_state device)
            then some (failure, record s { transport = record s.transport { t_error = un_device } })
            else elim (local_client_type_set P fuel type local_id s) [
              | none ↦ none
              | some (success, s1) ↦
                  elim ((drop_last i >> connect_to_remote P local_id remote) s1) [
                    | none ↦ none
                    | some (_, s2) ↦ some (connected_at i s2, s2)
                  ]
              | some (_, s1) ↦ some (failure, s1)
            ])
  ]

  pub forward_connect : ℕ → List ℕ → ℕ → Exec (Session P) Status
  unfolding open_channel
  forward_connect fuel remote_connect local_id = open_channel fuel forward remote_connect local_id

  unfoldable pub sync_connect : ℕ → ℕ → Exec (Session P) Status
  unfolding open_channel
  sync_connect fuel local_id = open_channel fuel file_sync (codes "sync:") local_id

  -- forward_write and sync_write: only on a channel of the type.
  unfoldable pub write_channel : ℕ → BipbufferType → List ℕ → ℕ → ℕ → Exec (Transport P) Status
  unfolding client_get_ptr client_write
  write_channel fuel type buffer len local_id t = elim (client_get_ptr P local_id t) [
    | none ↦ some (failure, t)
    | some (i, a) ↦
        if is_type a.biptype type
        then client_write P fuel buffer len local_id t
        else some (failure, t)
  ]

  abbrev pub whole_read : ℕ → ℤ → Status
  whole_read len (pos n) = if n == len then success else failure
  whole_read len (negsuc n) = failure

  -- forward_read, sync_read and sync_read_to_buffer: 0 where all bytes have come, and the bytes.
  unfoldable pub read_channel :
      ℕ → BipbufferType → Bool → ℕ → ℕ → ℕ → Exec (Session P) (Status × List ℕ)
  unfolding client_get_ptr client_read
  read_channel fuel type space len local_id wait_times s =
      elim (client_get_ptr P local_id s.transport) [
        | none ↦ some ((failure, []), s)
        | some (i, a) ↦
            if is_type a.biptype type
            then elim (client_read P fuel space len (some i) wait_times s) [
              | none ↦ none
              | some (r, s') ↦ some ((whole_read len r.0, r.1), s')
            ]
            else some ((failure, []), s)
      ]

  pub forward_write : ℕ → List ℕ → ℕ → ℕ → Exec (Transport P) Status
  unfolding write_channel
  forward_write fuel buffer len local_id = write_channel fuel forward buffer len local_id

  unfoldable pub sync_write : ℕ → List ℕ → ℕ → ℕ → Exec (Transport P) Status
  unfolding write_channel
  sync_write fuel buffer len local_id = write_channel fuel file_sync buffer len local_id

  pub forward_read : ℕ → Bool → ℕ → ℕ → ℕ → Exec (Session P) (Status × List ℕ)
  unfolding read_channel
  forward_read fuel space len local_id wait_times =
      read_channel fuel forward space len local_id wait_times

  unfoldable pub sync_read : ℕ → Bool → ℕ → ℕ → ℕ → Exec (Session P) (Status × List ℕ)
  unfolding read_channel
  sync_read fuel space len local_id wait_times =
      read_channel fuel file_sync space len local_id wait_times

  -- The buffer is a reference, so there is always space.
  unfoldable pub sync_read_to_buffer : ℕ → ℕ → ℕ → ℕ → Exec (Session P) (Status × List ℕ)
  unfolding read_channel
  sync_read_to_buffer fuel len local_id wait_times =
      read_channel fuel file_sync true len local_id wait_times
