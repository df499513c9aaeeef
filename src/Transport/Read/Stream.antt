-- ===== src/Transport/Read/Stream.antt =====
-- What a channel has for its user, and one turn of client_read's loop that goes on without waiting.
use adb_server_project.Common.{
  ℕ, ◌+◌, ◌*◌, ◌≤◌, ◌<◌, ◌≡◌, refl, ◌⊎◌, false, List, [], ◌∷◌, ◌++◌, Option, none, some,
  if◌then◌else◌, ◌==◌, take, drop, length, ap, sym, ◌∙◌, append_assoc, append-nil, ltb, Bool-cases,
  inl, inr, arith,
}
use adb_server_project.Packet.{Apacket}
use adb_server_project.Platform.{Platform, IsFifo}
use adb_server_project.Transport.State.{Transport, Aclient, close}
use adb_server_project.Transport.Clients.{slot, update_client}
use adb_server_project.Transport.Clients.Lookup.{slot-update_list_self}
use adb_server_project.Transport.Session.{Session}
use adb_server_project.Transport.Users.{is_type}
use adb_server_project.Transport.Wire.{IsRunning, IsFrame, Wire, Sends, outgoing, ready_wires}
use adb_server_project.Transport.Read.{Reading}

-- The bytes that the kept packet still has for the user, and those of the packets in the queue.
abbrev pub rest_bytes : Option Apacket → List ℕ
rest_bytes none = []
rest_bytes (some p) = elim p.ptr [
  | none ↦ take p.msg.data_length p.payload
  | some off ↦ take p.len (drop off p.payload)
]

abbrev pub inbox_bytes : List Apacket → List ℕ
inbox_bytes [] = []
inbox_bytes (p ∷ ps) = take p.msg.data_length p.payload ++ inbox_bytes ps

-- The announced bytes lie in the packets' arrays.
abbrev pub IsReadable : Option Apacket → Type 0
IsReadable none = Unit {0}
IsReadable (some p) = elim p.ptr [
  | none ↦ p.msg.data_length ≤ length p.payload
  | some off ↦ off + p.len ≤ length p.payload
]

abbrev pub AllWhole : List Apacket → Type 0
AllWhole [] = Unit {0}
AllWhole (p ∷ ps) = (p.msg.data_length ≤ length p.payload) × AllWhole ps

-- Reading has begun: `ptr` is set.
abbrev pub IsBegun : Option Apacket → Type 0
IsBegun none = Unit {0}
IsBegun (some p) = (off : ℕ) × (p.ptr ≡ some off) × (off + p.len ≤ length p.payload)

-- How many turns the loop takes at most.
abbrev pub turns_of_last : Option Apacket → ℕ
turns_of_last none = 0
turns_of_last (some p) = if p.len == 0 then 1 else 2

abbrev pub turns_left : Option Apacket → List Apacket → ℕ
turns_left last ps = 3 * length ps + turns_of_last last

-- The bytes that messages carry.
abbrev pub wire_bytes : List Wire → List ℕ
wire_bytes [] = []
wire_bytes (w ∷ ws) = w.bytes ++ wire_bytes ws

pub wire_bytes-append : (ws vs : List Wire) → wire_bytes (ws ++ vs) ≡ wire_bytes ws ++ wire_bytes vs
wire_bytes-append [] vs = refl
wire_bytes-append (w ∷ ws) vs =
    ap (◌++◌ w.bytes) (wire_bytes-append ws vs)
    ∙ sym (append_assoc w.bytes (wire_bytes ws) (wire_bytes vs))

-- A receipt carries none.
pub wire_bytes-ready_wires : (local remote : ℕ) → wire_bytes (ready_wires local remote) ≡ []
wire_bytes-ready_wires local remote = elim (Bool-cases (ltb 0 remote)) [
  | inl e ↦ rw e refl
  | inr e ↦ rw e refl
]

module _ (P : Platform) (fifo : IsFifo P) where
  -- The bytes on their way to the device.
  abbrev pub out_bytes : Transport P → List ℕ
  out_bytes t = wire_bytes (outgoing P fifo t)

  pub Sends-out_bytes :
      {A : Type 0} (t : Transport P) (ws : List Wire) (m : Option (A × Transport P))
      (w : Sends P fifo t ws m)
      → wire_bytes ws ≡ []
      → out_bytes w.after ≡ out_bytes t
  Sends-out_bytes t ws m w none_there =
      ap wire_bytes w.sent
      ∙ wire_bytes-append (outgoing P fifo t) ws
      ∙ ap (◌++◌ (out_bytes t)) none_there
      ∙ append-nil (out_bytes t)

  -- What a read leaves as it is: whose channel it is and what for, and the bytes on their way to the
  -- device; no packet comes in.
  pub record KeepsChannel (a : Aclient P) (s : Session P) (a' : Aclient P) (s' : Session P)
      : Type 0 where
    pub same_user : a'.user ≡ a.user
    pub same_id : a'.local_id ≡ a.local_id
    pub same_remote : a'.remote_id ≡ a.remote_id
    pub same_type : a'.biptype ≡ a.biptype
    pub fewer_packets : length (fifo.contents a'.ptrlist) ≤ length (fifo.contents a.ptrlist)
    pub same_out : out_bytes s'.transport ≡ out_bytes s.transport

  pub KeepsChannel-refl : (a : Aclient P) (s : Session P) → KeepsChannel a s a s
  KeepsChannel-refl a s = record {
    same_user = refl;
    same_id = refl;
    same_remote = refl;
    same_type = refl;
    fewer_packets = omega arith;
    same_out = refl;
  }

  pub KeepsChannel-trans :
      (a b c : Aclient P) (s t u : Session P)
      → KeepsChannel a s b t
      → KeepsChannel b t c u
      → KeepsChannel a s c u
  KeepsChannel-trans a b c s t u h k = record {
    same_user = k.same_user ∙ h.same_user;
    same_id = k.same_id ∙ h.same_id;
    same_remote = k.same_remote ∙ h.same_remote;
    same_type = k.same_type ∙ h.same_type;
    fewer_packets = omega (arith, h.fewer_packets, k.fewer_packets);
    same_out = k.same_out ∙ h.same_out;
  }

module _ (P : Platform) (fifo : IsFifo P) (i local_id remote_id wait_times : ℕ) where
  -- The loop can go on without waiting: the transport runs and the channel is open.
  pub record IsReady (r : Reading) (s : Session P) : Type 0 where
    pub a : Aclient P
    pub there : slot P s.transport.userlist i ≡ some a
    pub kept : a.last_apacket ≡ r.last
    pub open_type : is_type a.biptype close ≡ false
    pub begun : IsBegun r.last
    pub whole : AllWhole (fifo.contents a.ptrlist)
    pub running : IsRunning P fifo s.transport
    pub in_time : s.clock ≤ r.maxtimes

  -- What the channel still has for the user.
  abbrev pub left : Option Apacket → Aclient P → List ℕ
  left last a = rest_bytes last ++ inbox_bytes (fifo.contents a.ptrlist)

  -- A turn that copies `n` bytes.
  pub record Turned (r : Reading) (s : Session P) (a : Aclient P) (o : Option (Reading × Session P))
      : Type 0 where
    pub r' : Reading
    pub s' : Session P
    pub n : ℕ
    pub returned : o ≡ some (r', s')
    pub ready : IsReady r' s'
    pub shorter : r'.readlen + n ≡ r.readlen
    pub longer : r'.length_so_far ≡ r.length_so_far + n
    pub copied : r'.copied ≡ r.copied ++ take n (left r.last a)
    pub rest : left r'.last ready.a ≡ drop n (left r.last a)
    pub fewer :
        (r'.readlen ≡ 0)
        ⊎ (turns_left r'.last (fifo.contents ready.a.ptrlist)
            < turns_left r.last (fifo.contents a.ptrlist))
    pub kept_channel : KeepsChannel P fifo a s ready.a s'
    pub same_events : s'.events ≡ s.events
    pub same_clock : s'.clock ≡ s.clock

  abbrev pub reading : Option Apacket → ℕ → ℕ → List ℕ → ℕ → Reading
  reading last readlen so_far copied maxtimes = record {
    last = last;
    readlen = readlen;
    length_so_far = so_far;
    copied = copied;
    maxtimes = maxtimes;
  }

  pub rest_bytes-begun :
      (p : Apacket) (off : ℕ)
      → p.ptr ≡ some off
      → rest_bytes (some p) ≡ take p.len (drop off p.payload)
  rest_bytes-begun p off e = rw e refl

  pub slot-frame :
      (t u : Transport P) (a : Aclient P)
      → IsFrame P fifo t u
      → slot P t.userlist i ≡ some a
      → slot P u.userlist i ≡ some a
  slot-frame t u a frame there = ap (λ l. slot P l i) frame.same_users ∙ there

  -- A write through the user's pointer.
  pub updated_slot :
      (f : Aclient P → Aclient P) (t : Transport P) (a : Aclient P)
      → slot P t.userlist i ≡ some a
      → slot P (update_client P i f t).userlist i ≡ some (f a)
  updated_slot f t a there = slot-update_list_self P i f t.userlist a there
