-- ===== src/Threads.antt =====
-- The three threads of a transport (adb_func.cpp): output_thread carries packets from the device into
-- the pair of queues, input_thread from the pair to the device, and user_thread handles the packets of
-- the device. A turn of a thread's loop is one step; between turns the other threads go on. A turn of
-- output_thread starts its read when the pipe has an answer: the source reads without a time limit, so
-- a read that blocks is a turn that has not been taken yet.
pub mod Reads
pub mod Balance
pub mod Leave
pub mod Waiting
pub mod Gate
pub mod Incoming
pub mod Announce
pub mod Tests
use adb_server_project.Common.{
  ℕ, zero, suc, ◌+◌, ◌-◌, ◌%◌, ◌^◌, Bool, true, false, ◌||◌, Option, none, some, if◌then◌else◌,
  ◌==◌,
}
use adb_server_project.Packet.{Apacket, Status, success, failure, fault, a_sync, magic_of}
use adb_server_project.Platform.{Platform}
use adb_server_project.Transport.State.{Transport, usb_type}
use adb_server_project.Transport.Packets.{
  get_apacket, put_apacket, write_packet, read_packet, Round, returns, again, sleeps,
}
use adb_server_project.Transport.Clients.{clear}
use adb_server_project.Transport.Handle.{handle_packet}
use adb_server_project.Remote.{Usb, read_from_remote, write_to_remote}

module _ (P : Platform) (U : Usb) where
  -- The transport, the pipes of its device, and `active` of the input thread.
  pub record Machine : Type 0 where
    pub transport : Transport P
    pub pipe : U.Pipe
    pub active : Bool

  -- What a turn comes to: the loop goes on, or ends; the loop of output_thread also ends with a
  -- `break`, behind which the SYNC offline follows; the thread sleeps until another one acts; or an
  -- array is left.
  pub data Turn : Type 0 where
    goes_on : Machine → Turn
    leaves : Machine → Turn
    breaks : Machine → Turn
    waits : Turn
    faults : Turn

  -- `put_apacket(p)`, and what follows.
  abbrev pub after_put : Apacket → Machine → (Machine → Turn) → Turn
  after_put p m next = elim (put_apacket P (some p) m.transport) [
    | none ↦ waits
    | some (_, t) ↦ next (record m { transport = t })
  ]

  -- Behind a write to the device, whose result is not looked at.
  abbrev pub after_write : Apacket → Machine → Status × U.Pipe → Turn
  after_write p m (fault, pipe) = faults
  after_write p m (_, pipe) = after_put p (record m { pipe = pipe }) goes_on

  -- The body of the loop of input_thread, with a packet.
  unfoldable pub input_packet : Apacket → Machine → Turn
  unfolding put_apacket write_to_remote
  input_packet p m =
      if p.msg.command == a_sync
      then (if p.msg.arg0 == 0
          then after_put p m leaves
          else after_put p (record m { active = p.msg.arg1 == m.transport.sync_token || m.active })
              goes_on)
      else (if m.active
          then after_write p m (write_to_remote U m.transport.kind m.transport.usb p m.pipe)
          else after_put p m goes_on)

  unfoldable pub input_turn : ℕ → Machine → Turn
  unfolding read_packet input_packet
  input_turn fd m = elim (read_packet P fd none m.transport) [
    | returns success (some p) t ↦ input_packet p (record m { transport = t })
    | returns success none t ↦ goes_on (record m { transport = t })
    | returns _ p t ↦ leaves (record m { transport = t })
    | again t ↦ goes_on (record m { transport = t })
    | sleeps ↦ waits
  ]

  -- `if (t->kicked) __online = 0`.
  abbrev pub unless_kicked : Machine → Turn
  unless_kicked m = if m.transport.kicked then leaves m else goes_on m

  unfoldable pub user_turn : ℕ → Machine → Turn
  unfolding read_packet handle_packet
  user_turn tfd m = elim (read_packet P tfd none m.transport) [
    | returns success (some p) t ↦ elim (handle_packet P p t) [
      | none ↦ waits
      | some (_, t') ↦ unless_kicked (record m { transport = t' })
    ]
    | returns success none t ↦ unless_kicked (record m { transport = t })
    | returns _ p t ↦ leaves (record m { transport = t })
    | again t ↦ goes_on (record m { transport = t })
    | sleeps ↦ waits
  ]

  -- `put_apacket(p)` behind a write that failed; where the transport is a USB one the packet is gone
  -- already, and `p` is null.
  abbrev pub refused : Apacket → Machine → Turn
  refused p m = elim m.transport.kind [ usb_type ↦ leaves m | _ ↦ after_put p m leaves ]

  -- A SYNC packet is written to the pair; whether that succeeded.
  unfoldable pub write_sync : ℕ → ℕ → ℕ → Machine → Turn
  unfolding get_apacket write_packet
  write_sync fd arg0 arg1 m = elim (get_apacket P m.transport) [
    | none ↦ waits
    | some (p, t) ↦
        let q = record p {
          msg = record p.msg {
            command = a_sync;
            arg0 = arg0;
            arg1 = arg1;
            magic = magic_of a_sync;
          };
        } in
        elim (write_packet P fd q t) [
          | none ↦ waits
          | some (success, t') ↦ goes_on (record m { transport = t' })
          | some (_, t') ↦ refused q (record m { transport = t' })
        ]
  ]

  -- Before the loop: the token goes up, and SYNC with it announces that the device is online.
  unfoldable pub output_start : ℕ → Machine → Turn
  unfolding write_sync
  output_start fd m =
      let token = (m.transport.sync_token + 1) % 2 ^ 32 in
      write_sync fd 1 token (record m { transport = record m.transport { sync_token = token } })

  -- Behind the loop, where the device could not be read: SYNC offline.
  unfoldable pub output_end : ℕ → Machine → Turn
  unfolding write_sync
  output_end fd m = write_sync fd 0 0 m

  -- A packet that was read goes to the pair.
  unfoldable pub output_packet : ℕ → Apacket → Machine → Turn
  unfolding write_packet
  output_packet fd p m = elim (write_packet P fd p m.transport) [
    | none ↦ waits
    | some (success, t) ↦ goes_on (record m { transport = t })
    | some (_, t) ↦ refused p (record m { transport = t })
  ]

  -- What is done with the result of the read: status, packet and pipe.
  abbrev pub after_read : ℕ → Machine → Status → Option Apacket → Turn
  after_read fd m success (some q) = output_packet fd q m
  after_read fd m failure (some q) = after_put q m breaks
  after_read fd m _ _ = faults

  unfoldable pub output_turn : ℕ → Machine → Turn
  unfolding get_apacket read_from_remote output_packet put_apacket
  output_turn fd m = elim (get_apacket P m.transport) [
    | none ↦ waits
    | some (p, t) ↦
        let r = read_from_remote U t.kind t.usb p m.pipe in
        after_read fd (record m { transport = t; pipe = r.2 }) r.0 r.1
  ]

  -- `oops:` and the ends of the other two threads; ref_count counts the running threads, this one
  -- among them.
  unfoldable pub exit_thread : Machine → Machine
  unfolding clear
  exit_thread m =
      let t = clear P m.transport in
      record m { transport = record t { ref_count = t.ref_count - 1 } }
