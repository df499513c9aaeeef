-- ===== src/Transport/Read/Bytes.antt =====
-- client_read takes the next bytes of the channel's stream.
use adb_server_project.Common.{
  ℕ, ◌+◌, ◌*◌, ◌≤◌, ◌≡◌, refl, inl, inr, true, false, List, [], ◌++◌, Option, none, some, arith,
  ◌==◌, take, drop, length, ap, sym, ◌∙◌, subst, Bool-cases, Option-cases,
}
use adb_server_project.Common.Int.{pos}
use adb_server_project.Packet.{Apacket}
use adb_server_project.Platform.{Platform, IsFifo}
use adb_server_project.Transport.State.{Aclient, close}
use adb_server_project.Transport.Clients.{slot}
use adb_server_project.Transport.Session.{Session}
use adb_server_project.Transport.Users.{is_type}
use adb_server_project.Transport.Wire.{IsRunning}
use adb_server_project.Transport.View.Refine.{own_fields-IsRunning}
use adb_server_project.Transport.Read.{unread, prepared, set_last, client_read}
use adb_server_project.Transport.Read.Stream.{
  KeepsChannel, KeepsChannel-trans, rest_bytes, inbox_bytes, IsReadable, AllWhole, IsBegun,
  turns_of_last, IsReady, left, reading, updated_slot,
}
use adb_server_project.Transport.Read.Loop.{read_loop-Reads}

prepared_begun : (p : Apacket) (off : ℕ) → p.ptr ≡ some off → prepared (some p) ≡ some p
prepared_begun p off e =
    ap (λ (o : Option ℕ). elim o [ none ↦ some (unread p) | some k ↦ some p ]) e

rest_bytes-prepared : (o : Option Apacket) → rest_bytes (prepared o) ≡ rest_bytes o
rest_bytes-prepared none = refl
rest_bytes-prepared (some p) = elim (Option-cases p.ptr) [
  | inl e ↦ rw e refl
  | inr (off, e) ↦ ap rest_bytes (prepared_begun p off e)
]

IsBegun-prepared : (o : Option Apacket) → IsReadable o → IsBegun (prepared o)
IsBegun-prepared none h = tt
IsBegun-prepared (some p) h = elim (Option-cases p.ptr) [
  | inl e ↦
      let fits : p.msg.data_length ≤ length p.payload = rw e at h in rw e (0, refl, omega arith)
  | inr (off, e) ↦ rw e (off, e, (rw e at h))
]

IsReadable-begun : (o : Option Apacket) → IsBegun o → IsReadable o
IsReadable-begun none h = tt
IsReadable-begun (some p) (off, e, fits) = rw e fits

turns_of_last-bound : (o : Option Apacket) → turns_of_last o ≤ 2
turns_of_last-bound none = omega arith
turns_of_last-bound (some p) = elim (Bool-cases (p.len == 0)) [
  | inl e ↦ rw e (omega arith)
  | inr e ↦ rw e (omega arith)
]

module _ (P : Platform) (fifo : IsFifo P) where
  -- The bytes that a channel has for its user, in order.
  abbrev pub stream : Aclient P → List ℕ
  stream a = rest_bytes a.last_apacket ++ inbox_bytes (fifo.contents a.ptrlist)

  -- The channel in a place of a running transport is open, and its packets hold what they announce.
  pub record HasStream (i : ℕ) (s : Session P) (a : Aclient P) : Type 0 where
    pub there : slot P s.transport.userlist i ≡ some a
    pub open_type : is_type a.biptype close ≡ false
    pub readable : IsReadable a.last_apacket
    pub whole : AllWhole (fifo.contents a.ptrlist)
    pub running : IsRunning P fifo s.transport

  -- The stream of the channel is read, and the channel is kept.
  pub client_read-keeps :
      (fuel len i wait_times : ℕ) (a : Aclient P) (s : Session P)
      → HasStream i s a
      → len ≤ length (stream a)
      → 3 * length (fifo.contents a.ptrlist) + 2 ≤ fuel
      → (a' : Aclient P) × (s' : Session P) × (client_read P fuel true len (some i) wait_times s
          ≡ some ((pos len, take len (stream a)), s'))
        × HasStream i s' a'
        × (stream a' ≡ drop len (stream a))
        × (s'.events ≡ s.events)
        × KeepsChannel P fifo a s a' s'
  unfolding client_read
  client_read-keeps fuel len i wait_times a s h enough turns =
      let last = prepared a.last_apacket in
      let start = set_last P i a.local_id a.remote_id wait_times last s in
      let same : left P fifo i a.local_id a.remote_id wait_times last a ≡ stream a =
        ap (λ l. l ++ inbox_bytes (fifo.contents a.ptrlist)) (rest_bytes-prepared a.last_apacket) in
      let ready : IsReady P fifo i a.local_id a.remote_id wait_times
          (reading P fifo i a.local_id a.remote_id wait_times last len 0 [] (s.clock + wait_times))
          start =
        record {
          a = record a { last_apacket = last };
          there = updated_slot P fifo i a.local_id a.remote_id wait_times _ s.transport a h.there;
          kept = refl;
          open_type = h.open_type;
          begun = IsBegun-prepared a.last_apacket h.readable;
          whole = h.whole;
          running = own_fields-IsRunning P fifo s.transport _ _ _ _ _ h.running;
          in_time = omega arith;
        } in
      let k =
        read_loop-Reads P fifo i a.local_id a.remote_id wait_times fuel last len 0 []
          (s.clock + wait_times) start ready (omega (arith, ap length same))
          (inr (omega (arith, turns_of_last-bound last))) in
      let z : k.r'.length_so_far ≡ len = k.all_read ∙ (omega arith) in
      let kept_bytes : rest_bytes k.ready.a.last_apacket ≡ rest_bytes k.r'.last =
        ap rest_bytes k.ready.kept in
      (
        k.ready.a,
        k.s',
        rw (h.there, k.returned, client_read)
            (λ j. some ((pos (z j), (k.copied ∙ ap (take len) same) j), k.s')),
        record {
          there = k.ready.there;
          open_type = k.ready.open_type;
          readable = subst IsReadable (sym k.ready.kept) (IsReadable-begun k.r'.last k.ready.begun);
          whole = k.ready.whole;
          running = k.ready.running;
        },
        ap (λ l. l ++ inbox_bytes (fifo.contents k.ready.a.ptrlist)) kept_bytes
            ∙ k.rest
            ∙ ap (drop len) same,
        k.same_events,
        KeepsChannel-trans P fifo a (record a { last_apacket = last }) k.ready.a s start k.s'
            (record {
              same_user = refl;
              same_id = refl;
              same_remote = refl;
              same_type = refl;
              fewer_packets = omega arith;
              same_out = refl;
            })
            k.kept_channel,
      )

  -- Where an open channel of a running transport has at least `len` bytes, client_read returns `len`
  -- without waiting, whatever the timeout: it copies the first `len` bytes of the stream, across the
  -- borders of packets, and the channel keeps exactly the others, so that the next call goes on with
  -- them. Three turns of the loop for each queued packet and two more are enough.
  pub client_read-stream :
      (fuel len i wait_times : ℕ) (a : Aclient P) (s : Session P)
      → HasStream i s a
      → len ≤ length (stream a)
      → 3 * length (fifo.contents a.ptrlist) + 2 ≤ fuel
      → (a' : Aclient P) × (s' : Session P) × (client_read P fuel true len (some i) wait_times s
          ≡ some ((pos len, take len (stream a)), s'))
        × HasStream i s' a'
        × (stream a' ≡ drop len (stream a))
        × (s'.events ≡ s.events)
  client_read-stream fuel len i wait_times a s h enough turns =
      let (a', s', run, ready, rest, same, kept) =
        client_read-keeps fuel len i wait_times a s h enough turns in
      (a', s', run, ready, rest, same)
