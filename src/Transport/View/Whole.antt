-- ===== src/Transport/View/Whole.antt =====
-- handle_packet as a whole against its promise.
use adb_server_project.Common.{◌≡◌, refl, some, length}
use adb_server_project.Common.Exec.{Exec, ◌>>◌}
use adb_server_project.Packet.{Apacket}
use adb_server_project.Platform.{Platform, IsFifo}
use adb_server_project.Transport.State.{Transport}
use adb_server_project.Transport.Packets.{put_apacket}
use adb_server_project.Common.{◌≤◌}
use adb_server_project.Transport.Wire.{IsRunning}
use adb_server_project.Transport.Handle.{
  handle_cnxn, handle_auth, handle_okay, handle_clse, handle_command, handle_packet, Command, sync,
  cnxn, auth, opens, okay, clse, wrte, unknown, command_of,
}
use adb_server_project.Transport.View.{View, view, respond}
use adb_server_project.Transport.View.Refine.{
  Shows, Shows-then, put_apacket-Shows, some-Shows, Meets,
}
use adb_server_project.Transport.View.Commands.{
  handle_sync-Meets, handle_cnxn-Meets, handle_auth-Meets, handle_okay-Meets,
}
use adb_server_project.Transport.View.Deliver.{handle_clse-Meets, handle_wrte-Meets}

module _ (P : Platform) (fifo : IsFifo P) where
  then_put-Meets :
      (c : Command) (handle : Apacket → Exec (Transport P) (Unit {0}))
      → Meets P fifo c handle
      → Meets P fifo c (λ p. handle p >> put_apacket P (some p))
  then_put-Meets c handle meets p t v fits h e =
      Shows-then P fifo v v (handle p) _ t (meets p t v fits h e) (put_apacket-Shows P fifo v p)

  skip-Meets :
      (p : Apacket) (t : Transport P) (v : View)
      → IsRunning P fifo t
      → some (view P fifo t) ≡ some v
      → Shows P fifo v (put_apacket P (some p) t)
  skip-Meets p t v h e =
      some-Shows P fifo _ v _ (put_apacket-Shows P fifo (view P fifo t) p t h refl) e

  handle_command-Meets : (c : Command) → Meets P fifo c (handle_command P c)
  unfolding handle_command respond
  handle_command-Meets sync = handle_sync-Meets P fifo
  handle_command-Meets cnxn = then_put-Meets cnxn (handle_cnxn P) (handle_cnxn-Meets P fifo)
  handle_command-Meets auth = then_put-Meets auth (handle_auth P) (handle_auth-Meets P fifo)
  handle_command-Meets opens = λ p t v fits h e. skip-Meets p t v h e
  handle_command-Meets okay = then_put-Meets okay (handle_okay P) (handle_okay-Meets P fifo)
  handle_command-Meets clse = then_put-Meets clse (handle_clse P) (handle_clse-Meets P fifo)
  handle_command-Meets wrte = handle_wrte-Meets P fifo
  handle_command-Meets unknown = λ p t v fits h e. skip-Meets p t v h e

  -- handle_packet refines the abstract transport: on a running USB transport, for each packet whose
  -- payload holds the announced bytes and whose promise is defined (a banner is a C string), it returns,
  -- the transport still runs, and its channels, connection state, qualifiers, key and messages for the
  -- device are exactly those that the promise tells.
  pub handle_packet-refines :
      (p : Apacket) (t : Transport P) (v : View)
      → p.msg.data_length ≤ length p.payload
      → IsRunning P fifo t
      → respond P (command_of p.msg.command) p (view P fifo t) ≡ some v
      → (t' : Transport P) × (handle_packet P p t ≡ some (tt, t'))
        × IsRunning P fifo t'
        × (view P fifo t' ≡ v)
  unfolding handle_packet
  handle_packet-refines p t v fits h e =
      let s = handle_command-Meets (command_of p.msg.command) p t v fits h e in
      (s.after, s.returned, s.running, s.seen)
