-- ===== src/Transport/Calls/Shell.antt =====
-- shell_send.
use adb_server_project.Common.{
  ℕ, ◌+◌, Bool, ◌||◌, not, List, [], ◌∷◌, ◌++◌, Option, none, some, if◌then◌else◌, ◌==◌, ltb,
  length,
}
use adb_server_project.Common.Exec.{Exec, ◌>>=◌}
use adb_server_project.CString.{codes}
use adb_server_project.Packet.{Status, success, failure, max_payload}
use adb_server_project.Banner.{device}
use adb_server_project.Platform.{Platform}
use adb_server_project.Transport.State.{Transport, Aclient, BipbufferType, shell_sync, shell_async}
use adb_server_project.Transport.Packets.{get_apacket}
use adb_server_project.Transport.Send.{with_payload}
use adb_server_project.Transport.Clients.{client_get_ptr}
use adb_server_project.Transport.Handle.{is_state}
use adb_server_project.Transport.Session.{Session, lift}
use adb_server_project.Transport.Users.{is_type, local_remote_enqueue}
use adb_server_project.Transport.Calls.{
  starts_with, local_client_type_set, smart_local_remote_enqueue,
}

module _ (P : Platform) where
  -- The type that a command asks for: "shell:" alone is interactive, other text keeps the type.
  abbrev pub shell_type : List ℕ → Option BipbufferType
  shell_type destination =
      if starts_with (codes "shell:") destination
      then some (if length destination == 6 then shell_async else shell_sync)
      else none

  abbrev pub set_shell_type : ℕ → Option BipbufferType → ℕ → Exec (Session P) Status
  set_shell_type fuel none local_id s = some (success, s)
  set_shell_type fuel (some type) local_id s = local_client_type_set P fuel type local_id s

  -- Text for an interactive shell, with a newline and a NUL; the packet that was taken is not given
  -- back where the channel is of another type. sprintf_s faults where the text does not fit.
  abbrev pub send_line : ℕ → Aclient P → List ℕ → Exec (Transport P) Status
  send_line local_id a destination = get_apacket P >>= λ p t.
      if not (is_type a.biptype shell_async)
      then some (failure, t)
      else (if ltb max_payload (length destination + 2)
          then none
          else local_remote_enqueue P local_id
              (record (with_payload (destination ++ b'\n' ∷ 0 ∷ []) p) {
                len = length destination + 2;
              })
              t)

  -- The command goes out on a channel of the right type.
  abbrev pub send_command : ℕ → Bool → List ℕ → Exec (Session P) Status
  send_command local_id shellhead destination s =
      if ltb (length destination) max_payload
      then elim (client_get_ptr P local_id s.transport) [
        | none ↦ some (failure, s)
        | some (i, a) ↦
            if shellhead
            then (if is_type a.biptype shell_async || is_type a.biptype shell_sync
                then smart_local_remote_enqueue P local_id destination s
                else some (failure, s))
            else lift P (send_line local_id a destination) s
      ]
      else some (failure, s)

  unfoldable pub shell_send : ℕ → List ℕ → ℕ → Exec (Session P) Status
  unfolding client_get_ptr local_client_type_set smart_local_remote_enqueue local_remote_enqueue
      get_apacket
  shell_send fuel destination local_id s =
      if s.transport.kicked || not (is_state s.transport.connection_state device)
      then some (failure, s)
      else elim (set_shell_type fuel (shell_type destination) local_id s) [
        | none ↦ none
        | some (success, s') ↦
            send_command local_id (starts_with (codes "shell:") destination) destination s'
        | some (_, s') ↦ some (failure, s')
      ]
