-- ===== src/Transport/Users.antt =====
-- What a user of a channel calls (Catransport.cpp): local_remote_enqueue and client_write.
pub mod Write
use adb_server_project.Common.{
  ℕ, zero, suc, ◌+◌, ◌-◌, ◌≡◌, Bool, true, false, ◌||◌, List, Option, none, some, if◌then◌else◌,
  ◌==◌, ltb, take, drop, length,
}
use adb_server_project.Common.Exec.{Exec, pure, ◌>>=◌, ◌>>◌}
use adb_server_project.Packet.{Apacket, Status, success, failure, fault, max_payload, a_wrte}
use adb_server_project.Platform.{Platform}
use adb_server_project.Transport.State.{
  Transport, Aclient, BipbufferType, close, shell_sync, shell_async, file_sync, forward,
}
use adb_server_project.Transport.Packets.{get_apacket, put_apacket}
use adb_server_project.Transport.Send.{send_packet, with_command, with_payload}
use adb_server_project.Transport.Clients.{client_get_ptr}

abbrev pub is_type : BipbufferType → BipbufferType → Bool
is_type close close = true
is_type shell_sync shell_sync = true
is_type shell_async shell_async = true
is_type file_sync file_sync = true
is_type forward forward = true
is_type _ _ = false

module _ (P : Platform) where
  unfoldable pub local_remote_enqueue : ℕ → Apacket → Exec (Transport P) Status
  unfolding client_get_ptr put_apacket send_packet
  local_remote_enqueue local_id p t = elim (client_get_ptr P local_id t) [
    | none ↦ (do put_apacket P (some p); pure failure) t
    | some (i, a) ↦
        if is_type a.biptype close || t.kicked
        then (do put_apacket P (some p); pure failure) t
        else (do send_packet P (with_command a_wrte local_id a.remote_id p.len p); pure success) t
  ]

  -- One turn of the loop of client_write: a packet with the next bytes is sent.
  unfoldable pub write_piece : ℕ → List ℕ → Exec (Transport P) Status
  unfolding get_apacket local_remote_enqueue
  write_piece local_id bytes = do
    p ← get_apacket P
    local_remote_enqueue local_id (record (with_payload bytes p) { len = length bytes })

  -- `rlen` bytes of the buffer behind `ptr` remain; a memcpy behind the buffer's end is a fault.
  unfoldable pub client_write : ℕ → List ℕ → ℕ → ℕ → Exec (Transport P) Status
  unfolding write_piece
  client_write zero ptr rlen local_id t = if rlen == 0 then pure success t else none
  client_write (suc fuel) ptr rlen local_id t =
      if rlen == 0
      then pure success t
      else (let slen = if ltb max_payload rlen then max_payload else rlen in
          if ltb (length ptr) slen then none else elim (write_piece local_id (take slen ptr) t) [
            | none ↦ none
            | some (success, t') ↦ client_write fuel (drop slen ptr) (rlen - slen) local_id t'
            | some (_, t') ↦ pure failure t'
          ])
