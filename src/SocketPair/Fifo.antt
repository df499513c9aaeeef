-- ===== src/SocketPair/Fifo.antt =====
-- The two ends of a pair are a pair of first-in-first-out queues.
use adb_server_project.Common.{
  ℕ, ◌≡◌, refl, ◌≢◌, ◌⊎◌, inl, inr, Bool, true, false, List, [], ◌∷◌, ◌++◌, Option, none, some,
  arith, Option-cases, ◌==◌, Bool-cases, if◌then◌else◌,
}
use adb_server_project.Packet.{Apacket, success, failure}
use adb_server_project.Platform.{Platform, IsFifo}
use adb_server_project.SocketPair.{
  BipBufferRec, SocketPairRec, adb_socketpair, adb_read, adb_write, adb_close, bip_buffer_read,
  bip_buffer_write, fh_socketpair_close,
}

module _ (P : Platform) (fifo : IsFifo P) where
  -- The packets on their way, oldest first; none once the queue is freed.
  abbrev pub queued : BipBufferRec P → List Apacket
  queued bip = elim bip.ptrlist [ none ↦ [] | some q ↦ fifo.contents q ]

  -- A direction that was neither closed nor freed.
  abbrev pub IsOpen : BipBufferRec P → Type 0
  IsOpen bip = (bip.closed ≡ false) × (bip.ptrlist ≢ none)

  bip_buffer_write-queued :
      (scr : Apacket) (bip : BipBufferRec P)
      → IsOpen bip
      → (bip' : BipBufferRec P) × (bip_buffer_write P scr bip ≡ some (success, bip'))
        × IsOpen bip'
        × (queued bip' ≡ queued bip ++ scr ∷ [])
  unfolding bip_buffer_write
  bip_buffer_write-queued scr bip h = elim (Option-cases bip.ptrlist) [
    | inl freed ↦ absurd (h.1 freed)
    | inr (q, e) ↦
        let (r, pushed, grown) = fifo.push_succeeds scr q in
        (record bip { ptrlist = some r }, ground arith, (h.0, λ n. cc), ground arith)
  ]

  -- What a read of an open direction does: it takes the oldest packet, or spins on an empty queue.
  abbrev Taken : BipBufferRec P → Option (Option Apacket × BipBufferRec P) → Type 0
  Taken bip r =
      ((queued bip ≡ []) × (r ≡ none))
      ⊎ ((p : Apacket) × (bip' : BipBufferRec P) × (r ≡ some (some p, bip'))
          × IsOpen bip'
          × (queued bip ≡ p ∷ queued bip'))

  bip_buffer_read-Taken : (bip : BipBufferRec P) → IsOpen bip → Taken bip (bip_buffer_read P bip)
  unfolding bip_buffer_read
  bip_buffer_read-Taken bip h = elim (Option-cases bip.ptrlist) [
    | inl freed ↦ absurd (h.1 freed)
    | inr (q, e) ↦ elim (fifo.pop_first q) [
      | inl (empty, none_left) ↦ inl (ground arith, ground arith)
      | inr (p, r, shrunk, popped) ↦
          inr (p, record bip { ptrlist = some r }, ground arith, (h.0, λ n. cc), ground arith)
    ]
  ]

  -- The abstract pair: what is on its way from end A to end B, and from B to A.
  pub record Wires : Type 0 where
    pub a_to_b : List Apacket
    pub b_to_a : List Apacket

  abbrev pub wires : SocketPairRec P → Wires
  wires pair = record { a_to_b = queued pair.a2b_bip; b_to_a = queued pair.b2a_bip }

  abbrev pub IsOpenPair : SocketPairRec P → Type 0
  IsOpenPair pair = IsOpen pair.a2b_bip × IsOpen pair.b2a_bip

  -- Sending from an end: end A is the one whose descriptor is `a_fd`.
  abbrev pub sent : Bool → Apacket → Wires → Wires
  sent true p w = record w { a_to_b = w.a_to_b ++ p ∷ [] }
  sent false p w = record w { b_to_a = w.b_to_a ++ p ∷ [] }

  -- A write to an open pair returns 0 and puts the packet behind those that the same end has sent;
  -- the other direction stays as it is, and the pair stays open.
  pub adb_write-wires :
      (f : ℕ) (p : Apacket) (pair : SocketPairRec P)
      → IsOpenPair pair
      → (pair' : SocketPairRec P) × (adb_write P f p (some pair) ≡ some (success, some pair'))
        × IsOpenPair pair'
        × (wires pair' ≡ sent (f == pair.a_fd) p (wires pair))
        × (pair'.a_fd ≡ pair.a_fd)
  unfolding adb_write
  adb_write-wires f p pair h = elim (Bool-cases (f == pair.a_fd)) [
    | inl a ↦
        let (bip, e, ok, grown) = bip_buffer_write-queued p pair.a2b_bip h.0 in
        (record pair { a2b_bip = bip }, ground (arith, e), (ok, h.1), ground arith, refl)
    | inr b ↦
        let (bip, e, ok, grown) = bip_buffer_write-queued p pair.b2a_bip h.1 in
        (record pair { b2a_bip = bip }, ground (arith, e), (h.0, ok), ground arith, refl)
  ]

  -- A read at an end of an open pair takes the oldest packet that the other end has sent and leaves
  -- the rest; where there is none it spins. The reading end's own packets are never returned.
  pub adb_read-wires :
      (f : ℕ) (pair : SocketPairRec P)
      → IsOpenPair pair
      → let incoming = if f == pair.a_fd then queued pair.b2a_bip else queued pair.a2b_bip in
        ((incoming ≡ []) × (adb_read P f (some pair) ≡ none))
        ⊎ ((p : Apacket) × (pair' : SocketPairRec P) × (adb_read P f (some pair)
              ≡ some (some p, some pair'))
            × IsOpenPair pair'
            × (incoming
                ≡ p ∷ (if f == pair.a_fd then queued pair'.b2a_bip else queued pair'.a2b_bip))
            × ((if f == pair.a_fd then queued pair'.a2b_bip else queued pair'.b2a_bip)
                ≡ (if f == pair.a_fd then queued pair.a2b_bip else queued pair.b2a_bip)))
  unfolding adb_read
  adb_read-wires f pair h = elim (Bool-cases (f == pair.a_fd)) [
    | inl a ↦ elim (bip_buffer_read-Taken pair.b2a_bip h.1) [
      | inl (empty, spins) ↦ inl (rw a empty, ground arith)
      | inr (p, bip, e, ok, shrunk) ↦
          inr (p, record pair { b2a_bip = bip }, ground arith, (h.0, ok), rw a shrunk, rw a refl)
    ]
    | inr b ↦ elim (bip_buffer_read-Taken pair.a2b_bip h.0) [
      | inl (empty, spins) ↦ inl (rw b empty, ground arith)
      | inr (p, bip, e, ok, shrunk) ↦
          inr (p, record pair { a2b_bip = bip }, ground arith, (ok, h.1), rw b shrunk, rw b refl)
    ]
  ]

  -- After adb_close every read and every write, at either end, returns -1 at once and changes
  -- nothing, whether the queues were freed or not, and closing again succeeds.
  pub adb_close-refuses :
      (f g : ℕ) (p : Apacket) (pair : SocketPairRec P)
      → (pair' : SocketPairRec P) × (adb_close P f (some pair) ≡ some (success, some pair'))
        × (adb_write P g p (some pair') ≡ some (failure, some pair'))
        × (adb_read P g (some pair') ≡ some (none, some pair'))
  unfolding adb_close adb_write adb_read
  adb_close-refuses f g p pair = (fh_socketpair_close P pair, refl, ground arith, ground arith)

  -- A new pair is open, with nothing on its way, and its ends have different descriptors.
  adb_socketpair-wires :
      IsOpenPair (adb_socketpair P)
      × (wires (adb_socketpair P) ≡ record { a_to_b = []; b_to_a = [] })
  unfolding adb_socketpair
  adb_socketpair-wires = (((refl, λ e. cc), (refl, λ e. cc)), ground (arith, fifo.contents_new))
