-- ===== src/Sync/OnTransport.antt =====
-- The channel that the file client is given: the sync calls of a transport (Catransport.cpp).
use adb_server_project.Common.{
  ℕ, ◌+◌, ◌*◌, ◌≤◌, ◌≡◌, refl, ap, sym, ◌∙◌, Bool, true, false, List, [], ◌∷◌, ◌++◌, Option, none,
  some, ◌==◌, take, drop, length, arith,
}
use adb_server_project.Packet.{success}
use adb_server_project.Platform.{Platform, IsFifo}
use adb_server_project.Transport.State.{
  Aclient, BipbufferType, close, shell_sync, shell_async, file_sync, forward, device_offline,
}
use adb_server_project.Transport.Clients.{client_get_ptr}
use adb_server_project.Transport.Clients.Lookup.{client_get_ptr-some, client_get_ptr-slot}
use adb_server_project.Transport.Session.{Session, Event, lift}
use adb_server_project.Transport.Users.{is_type, client_write}
use adb_server_project.Transport.Users.Write.{
  joined, write_wires, client_write-Writes, client_get_ptr-users,
}
use adb_server_project.Transport.Read.Stream.{
  IsReadable, AllWhole, wire_bytes, wire_bytes-append, out_bytes,
}
use adb_server_project.Transport.Read.Bytes.{stream, HasStream, client_read-keeps}
use adb_server_project.Transport.Wire.{IsRunning, outgoing}
use adb_server_project.Transport.Calls.{local_client_type_set}
use adb_server_project.Transport.Calls.Channels.{
  sync_connect, sync_write, sync_read, sync_read_to_buffer, write_channel, read_channel,
}
use adb_server_project.Sync.{SyncChannel}
use adb_server_project.Sync.Wire.{IsWire}

module _ (P : Platform) (fuel local_id : ℕ) where
  -- A test of the channel's type, where the channel is in use.
  abbrev pub has_type : BipbufferType → Session P → Bool
  has_type type s = elim (client_get_ptr P local_id s.transport) [
    | none ↦ false
    | some (i, a) ↦ is_type a.biptype type
  ]

  -- adb_sleep_ms: what the other threads do meanwhile.
  abbrev slept : List (Event P) → Session P → Session P
  slept [] s = s
  slept (e ∷ es) s = record { transport = e.meanwhile s.transport; clock = e.now; events = es }

  -- The fuel is for the packets that wait in the channel; a write has as much as bytes. The channel of
  -- sync_quit is deleted by nobody, so its type is that of the last look.
  unfoldable pub transport_channel : SyncChannel (Session P)
  unfolding client_get_ptr local_client_type_set sync_connect sync_write sync_read
      sync_read_to_buffer
  transport_channel = record {
    connect = sync_connect P fuel local_id;
    write = λ bytes. lift P (sync_write P (length bytes) bytes (length bytes) local_id);
    read = λ n wait_times. sync_read P fuel true n local_id wait_times;
    read_to_buffer = λ n. sync_read_to_buffer P fuel n local_id 0;
    disconnect = local_client_type_set P fuel close local_id;
    is_file_sync = has_type file_sync;
    is_closed = has_type close;
    is_kicked = λ s. s.transport.kicked;
    set_offline = λ s. record s { transport = record s.transport { t_error = device_offline } };
    pause = λ s. slept s.events s;
  }

sync_type : (b : BipbufferType) → is_type b file_sync ≡ true → is_type b close ≡ false
sync_type close e = let never : false ≡ true = e in cc
sync_type shell_sync e = refl
sync_type shell_async e = refl
sync_type file_sync e = refl
sync_type forward e = refl

wire_bytes-write_wires :
    (local remote : ℕ) (pieces : List (List ℕ))
    → wire_bytes (write_wires local remote pieces) ≡ joined pieces
wire_bytes-write_wires local remote [] = refl
wire_bytes-write_wires local remote (piece ∷ pieces) =
    ap (◌++◌ piece) (wire_bytes-write_wires local remote pieces)

all_taken : (bytes : List ℕ) → take (length bytes) bytes ≡ bytes
all_taken [] = refl
all_taken (b ∷ bytes) = ap (◌∷◌ b) (all_taken bytes)

module _ (P : Platform) (fifo : IsFifo P) (fuel local_id : ℕ) where
  -- The channel of a running transport is open for the file client, its packets hold what they
  -- announce, and the fuel is enough for them.
  pub record IsOpenSync (s : Session P) : Type 0 where
    pub i : ℕ
    pub a : Aclient P
    pub found : client_get_ptr P local_id s.transport ≡ some (i, a)
    pub sync_type : is_type a.biptype file_sync ≡ true
    pub readable : IsReadable a.last_apacket
    pub whole : AllWhole (fifo.contents a.ptrlist)
    pub running : IsRunning P fifo s.transport
    pub enough : 3 * length (fifo.contents a.ptrlist) + 2 ≤ fuel

  abbrev stream_of : Option (ℕ × Aclient P) → List ℕ
  stream_of none = []
  stream_of (some (i, a)) = stream P fifo a

  -- What the channel has for its user.
  abbrev pub sync_stream : Session P → List ℕ
  sync_stream s = stream_of (client_get_ptr P local_id s.transport)

  pub writes :
      (bytes : List ℕ) (s : Session P)
      → IsOpenSync s
      → (s' : Session P) × (lift P (sync_write P (length bytes) bytes (length bytes) local_id) s
          ≡ some (success, s'))
        × IsOpenSync s'
        × (out_bytes P fifo s'.transport ≡ out_bytes P fifo s.transport ++ bytes)
        × (sync_stream s' ≡ sync_stream s)
  unfolding sync_write write_channel
  writes bytes s h =
      let (pieces, same, fit, w) =
        client_write-Writes P fifo (length bytes) (length bytes) local_id h.i h.a bytes s.transport
          (omega arith) (omega arith) h.running h.found (sync_type h.a.biptype h.sync_type) in
      let s' = record s { transport = w.after } in
      let users = client_get_ptr-users P fifo local_id s.transport w.after w.frame.same_users in
      let called : sync_write P (length bytes) bytes (length bytes) local_id s.transport
          ≡ client_write P (length bytes) bytes (length bytes) local_id s.transport =
        rw (h.found, h.sync_type, sync_write, write_channel) refl in
      (
        s',
        ap (λ o. elim o [ none ↦ none | some (r, t) ↦ some (r, record s { transport = t }) ])
            (called ∙ w.returned),
        record {
          i = h.i;
          a = h.a;
          found = users ∙ h.found;
          sync_type = h.sync_type;
          readable = h.readable;
          whole = h.whole;
          running = w.running;
          enough = h.enough;
        },
        ap wire_bytes w.sent
            ∙ wire_bytes-append (outgoing P fifo s.transport)
                (write_wires local_id h.a.remote_id pieces)
            ∙ ap (◌++◌ (out_bytes P fifo s.transport))
                (wire_bytes-write_wires local_id h.a.remote_id pieces ∙ same ∙ all_taken bytes),
        ap stream_of users,
      )

  pub reads :
      (n wait_times : ℕ) (s : Session P)
      → IsOpenSync s
      → n ≤ length (sync_stream s)
      → (s' : Session P) × (read_channel P fuel file_sync true n local_id wait_times s
          ≡ some ((success, take n (sync_stream s)), s'))
        × IsOpenSync s'
        × (out_bytes P fifo s'.transport ≡ out_bytes P fifo s.transport)
        × (sync_stream s' ≡ drop n (sync_stream s))
  unfolding read_channel
  reads n wait_times s h room =
      let there = client_get_ptr-some P local_id h.i h.a s.transport h.found in
      let has : HasStream P fifo h.i s h.a = record {
        there = there.1;
        open_type = sync_type h.a.biptype h.sync_type;
        readable = h.readable;
        whole = h.whole;
        running = h.running;
      } in
      let same : sync_stream s ≡ stream P fifo h.a = ap stream_of h.found in
      let (b, s', run, ready, rest, events, kept) =
        client_read-keeps P fifo fuel n h.i wait_times h.a s has
          (omega (arith, room, ap length same)) h.enough in
      let still : is_type b.biptype file_sync ≡ true =
        ap (λ k. is_type k file_sync) kept.same_type ∙ h.sync_type in
      let found' =
        client_get_ptr-slot P local_id h.i h.a b s.transport s'.transport h.found ready.there
          (kept.same_user ∙ there.2) in
      let counted : (n == n) ≡ true = ground arith in
      let called : read_channel P fuel file_sync true n local_id wait_times s
          ≡ some ((success, take n (stream P fifo h.a)), s') =
        rw (h.found, h.sync_type, run, counted, read_channel) refl in
      (
        s',
        called ∙ ap (λ l. some ((success, take n l), s')) (sym same),
        record {
          i = h.i;
          a = b;
          found = found';
          sync_type = still;
          readable = ready.readable;
          whole = ready.whole;
          running = ready.running;
          enough = omega (arith, h.enough, kept.fewer_packets);
        },
        kept.same_out,
        ap stream_of found' ∙ rest ∙ ap (drop n) (sym same),
      )

  -- The sync calls of a running transport are a channel that works.
  unfoldable pub transport_channel-IsWire : IsWire (Session P) (transport_channel P fuel local_id)
  unfolding transport_channel sync_read sync_read_to_buffer
  transport_channel-IsWire = record {
    Ready = IsOpenSync;
    sent = λ s. out_bytes P fifo s.transport;
    incoming = sync_stream;
    writes = writes;
    reads = reads;
    reads_to_buffer = λ n. reads n 0;
  }
