-- ===== src/Transport/Balance.antt =====
-- Who holds the packets: every packet taken from the C heap is in the pool for reuse, on its way in the
-- pair, in a channel, freed, or in the hands of the running code. handle_packet loses none.
pub mod Send
pub mod Handle
use adb_server_project.Common.{
  ℕ, zero, suc, ◌+◌, ◌≡◌, refl, ◌⊎◌, inl, inr, Bool, true, false, List, [], ◌∷◌, ◌++◌, Option, none,
  some, arith, length, length-append, Bool-cases, Option-cases, ◌==◌, if◌then◌else◌, ap,
}
use adb_server_project.Common.Exec.{Exec, ◌>>=◌, ◌>>◌, pure, modify}
use adb_server_project.Packet.{Apacket, seal_packet, Status, success, failure}
use adb_server_project.Platform.{Platform, IsFifo}
use adb_server_project.SocketPair.{BipBufferRec, SocketPairRec}
use adb_server_project.Transport.State.{Transport, Aclient, usb_type}
use adb_server_project.Transport.Packets.{
  get_apacket, put_apacket, usb_write_packet, write_packet, write_by_type, bip_push, pair_push,
}
use adb_server_project.Transport.Clients.{slot, update_list, update_client, client_get_ptr, if_used}
use adb_server_project.Transport.Send.{
  send_packet, send_connect, send_ready, send_close, send_auth_response, send_auth_publickey,
}
use adb_server_project.Transport.Handle.{
  local_client_enqueue, handle_sync, handle_cnxn, handle_auth, handle_okay, handle_clse,
  handle_wrte, handle_packet,
}

module _ (P : Platform) (fifo : IsFifo P) where
  abbrev pub held_queue : P.Queue → ℕ
  held_queue q = length (fifo.contents q)

  abbrev pub held_bip : BipBufferRec P → ℕ
  held_bip bip = elim bip.ptrlist [ none ↦ 0 | some q ↦ held_queue q ]

  abbrev pub held_pair : Option (SocketPairRec P) → ℕ
  held_pair none = 0
  held_pair (some pair) = held_bip pair.a2b_bip + held_bip pair.b2a_bip

  abbrev pub held_last : Option Apacket → ℕ
  held_last none = 0
  held_last (some p) = 1

  abbrev pub held_client : Aclient P → ℕ
  held_client a = held_queue a.ptrlist + held_last a.last_apacket

  abbrev pub held_clients : List (Option (Aclient P)) → ℕ
  held_clients [] = 0
  held_clients (none ∷ l) = held_clients l
  held_clients (some a ∷ l) = held_client a + held_clients l

  -- All packets that the transport's containers hold.
  abbrev pub held : Transport P → ℕ
  held t = held_queue t.loop_to_use_apacket + held_pair t.pair + held_clients t.userlist

  -- With `hands` packets in the hands of the running code, none is lost and none is counted twice.
  abbrev pub IsBalanced : ℕ → Transport P → Type 0
  IsBalanced hands t = (t.mallocs ≡ t.frees + held t + hands) × (t.kind ≡ usb_type)

  -- A run that returns leaves `hands` packets in hand.
  abbrev pub After : {A : Type 0} → ℕ → Option (A × Transport P) → Type 0
  After hands none = Unit {0}
  After hands (some (a, t)) = IsBalanced hands t

  -- Running `m` with `before` packets in hand leaves `after` in hand.
  abbrev pub Balances : {A : Type 0} → ℕ → Exec (Transport P) A → ℕ → Type 0
  Balances before m after = (t : Transport P) → IsBalanced before t → After after (m t)

  pub push-length :
      (p : Apacket) (q : P.Queue)
      → (r : P.Queue) × (P.push p q ≡ some r) × (held_queue r ≡ held_queue q + 1)
  push-length p q =
      let (r, e, c) = fifo.push_succeeds p q in
      (r, e, omega (arith, ap length c, length-append (fifo.contents q) (p ∷ [])))

  pub get_apacket-Balances : (hands : ℕ) → Balances hands (get_apacket P) (hands + 1)
  unfolding get_apacket
  get_apacket-Balances hands t b = ground (arith, fifo.pop_first t.loop_to_use_apacket)

  pub put_apacket-Balances :
      (hands : ℕ) (p : Apacket) → Balances (hands + 1) (put_apacket P (some p)) hands
  unfolding put_apacket
  put_apacket-Balances hands p t b = ground (arith, push-length p t.loop_to_use_apacket)

  pub if-After :
      {A : Type 0} (hands : ℕ) (c : Bool) (m n : Option (A × Transport P))
      → After hands m
      → After hands n
      → After hands (if c then m else n)
  if-After hands true m n hm hn = hm
  if-After hands false m n hm hn = hn

  pub if-Balances :
      {A : Type 0} (i j : ℕ) (c : Bool) (m n : Exec (Transport P) A)
      → Balances i m j
      → Balances i n j
      → Balances i (if c then m else n) j
  if-Balances i j true m n hm hn = hm
  if-Balances i j false m n hm hn = hn

  pub >>=-Balances :
      {A B : Type 0} (i j k : ℕ) (m : Exec (Transport P) A) (f : A → Exec (Transport P) B)
      → Balances i m j
      → ((a : A) → Balances j (f a) k)
      → Balances i (m >>= f) k
  >>=-Balances i j k m f hm hf t b = elim (Option-cases (m t)) [
    | inl e ↦ rw (e, After, ◌>>=◌) tt
    | inr ((a, t'), e) ↦ rw (e, After, ◌>>=◌) (hf a t' (rw (e, After) at (hm t b)))
  ]

  pub >>-Balances :
      {A B : Type 0} (i j k : ℕ) (m : Exec (Transport P) A) (n : Exec (Transport P) B)
      → Balances i m j
      → Balances j n k
      → Balances i (m >> n) k
  >>-Balances i j k m n hm hn t b = elim (Option-cases (m t)) [
    | inl e ↦ rw (e, After, ◌>>◌) tt
    | inr ((a, t'), e) ↦ rw (e, After, ◌>>◌) (hn t' (rw (e, After) at (hm t b)))
  ]

  bip_push-held :
      (p : Apacket) (bip : BipBufferRec P)
      → (bip_push P p bip ≡ none)
        ⊎ (bip_push P p bip ≡ some none)
        ⊎ ((bip' : BipBufferRec P) × (bip_push P p bip ≡ some (some bip'))
            × (held_bip bip' ≡ held_bip bip + 1))
  bip_push-held p bip = elim (Bool-cases bip.closed) [
    | inl e ↦ inr (inl (rw e refl))
    | inr e ↦ elim (Option-cases bip.ptrlist) [
      | inl n ↦ inl (ground arith)
      | inr (q, s) ↦
          let (r, pushed, more) = push-length p q in
          inr (inr (record bip { ptrlist = some r }, ground arith, ground arith))
    ]
  ]

  pair_push-held :
      (f : ℕ) (p : Apacket) (pair : SocketPairRec P)
      → (pair_push P f p pair ≡ none)
        ⊎ (pair_push P f p pair ≡ some none)
        ⊎ ((pair' : SocketPairRec P) × (pair_push P f p pair ≡ some (some pair'))
            × (held_pair (some pair') ≡ held_pair (some pair) + 1))
  pair_push-held f p pair = elim (Bool-cases (f == pair.a_fd)) [
    | inl end ↦ elim (bip_push-held p pair.a2b_bip) [
      | inl e ↦ inl (rw (end, e) refl)
      | inr (inl e) ↦ inr (inl (rw (end, e) refl))
      | inr (inr (bip, e, more)) ↦
          inr (inr (record pair { a2b_bip = bip }, rw (end, e) refl, omega arith))
    ]
    | inr end ↦ elim (bip_push-held p pair.b2a_bip) [
      | inl e ↦ inl (rw (end, e) refl)
      | inr (inl e) ↦ inr (inl (rw (end, e) refl))
      | inr (inr (bip, e, more)) ↦
          inr (inr (record pair { b2a_bip = bip }, rw (end, e) refl, omega arith))
    ]
  ]

  pub give_back-Balances :
      {A : Type 0} (hands : ℕ) (p : Apacket) (a : A)
      → Balances (hands + 1) (put_apacket P (some p) >> pure a) hands
  give_back-Balances hands p a =
      >>-Balances (hands + 1) hands hands (put_apacket P (some p)) (pure a)
        (put_apacket-Balances hands p) (λ t b. b)

  pub usb_write_packet-Balances :
      (hands f : ℕ) (p : Apacket) → Balances (hands + 1) (usb_write_packet P f p) hands
  unfolding usb_write_packet
  usb_write_packet-Balances hands f p t b = elim (Option-cases t.pair) [
    | inl e ↦ rw (e, usb_write_packet) (give_back-Balances hands p failure t b)
    | inr (pair, e) ↦
        rw (e, usb_write_packet)
          (if-After hands t.kicked _ _ (give_back-Balances hands p failure t b)
            (elim (pair_push-held f p pair) [
              | inl u ↦ rw u tt
              | inr (inl u) ↦ rw u (give_back-Balances hands p failure t b)
              | inr (inr (pair', u, more)) ↦ rw u (omega (arith, ap held_pair e), b.1)
            ]))
  ]
