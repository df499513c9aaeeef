-- ===== src/Transport/Packets.antt =====
-- Packets taken and given back, and the two ends of the pair: get_apacket, put_apacket,
-- usb_write_packet, write_packet, usb_read_packet, read_packet.
use adb_server_project.Common.{ℕ, suc, List, Option, none, some, if◌then◌else◌, ◌==◌}
use adb_server_project.Common.Int.{pos, ◌+ℤ◌, ◌-ℤ◌, ltb_ℤ}
use adb_server_project.Common.Exec.{Exec, pure, modify, ◌>>=◌, ◌>>◌}
use adb_server_project.Packet.{Apacket, Status, success, failure}
use adb_server_project.Platform.{Platform}
use adb_server_project.SocketPair.{SocketPairRec, BipBufferRec}
use adb_server_project.Transport.State.{Transport, usb_type}

-- `memset(p, 0, sizeof(apacket) - MAX_PAYLOAD)`: the header goes, the payload stays.
abbrev pub cleared : List ℕ → Apacket
cleared bytes = record {
  len = 0;
  ptr = none;
  msg = record { command = 0; arg0 = 0; arg1 = 0; data_length = 0; data_check = 0; magic = 0 };
  payload = bytes;
}

module _ (P : Platform) where
  unfoldable pub get_apacket : Exec (Transport P) Apacket
  get_apacket t = elim (P.pop t.loop_to_use_apacket) [
    | some (p, rest) ↦ some (cleared p.payload, record t { loop_to_use_apacket = rest })
    | none ↦ some (cleared (P.malloc_data t.mallocs), record t { mallocs = suc t.mallocs })
  ]

  -- A packet is kept for reuse, or freed once the device is gone.
  unfoldable pub put_apacket : Option Apacket → Exec (Transport P) (Unit {0})
  put_apacket none t = pure tt t
  put_apacket (some p) t =
      if t.kicked
      then pure tt (record t { frees = suc t.frees })
      else elim (P.push p t.loop_to_use_apacket) [
        | none ↦ pure tt (record t { frees = suc t.frees })
        | some q ↦ pure tt (record t { loop_to_use_apacket = q })
      ]

  -- The loop of usb_write_packet on one direction; `none` inside is a closed direction.
  abbrev pub bip_push : Apacket → BipBufferRec P → Option (Option (BipBufferRec P))
  bip_push p bip = if bip.closed then some none else elim bip.ptrlist [
    | none ↦ none
    | some q ↦ elim (P.push p q) [
      | none ↦ none
      | some r ↦ some (some (record bip { ptrlist = some r }))
    ]
  ]

  -- The end whose descriptor is `a_fd` writes to a2b, the other one to b2a.
  abbrev pub pair_push : ℕ → Apacket → SocketPairRec P → Option (Option (SocketPairRec P))
  pair_push f p pair =
      if f == pair.a_fd
      then elim (bip_push p pair.a2b_bip) [
        | none ↦ none
        | some none ↦ some none
        | some (some bip) ↦ some (some (record pair { a2b_bip = bip }))
      ]
      else elim (bip_push p pair.b2a_bip) [
        | none ↦ none
        | some none ↦ some none
        | some (some bip) ↦ some (some (record pair { b2a_bip = bip }))
      ]

  -- The packet is gone from the caller on every path: queued, kept or freed.
  unfoldable pub usb_write_packet : ℕ → Apacket → Exec (Transport P) Status
  unfolding put_apacket
  usb_write_packet f p t = elim t.pair [
    | none ↦ (put_apacket (some p) >> pure failure) t
    | some pair ↦
        if t.kicked then (put_apacket (some p) >> pure failure) t else elim (pair_push f p pair) [
          | none ↦ none
          | some none ↦ (put_apacket (some p) >> pure failure) t
          | some (some pair') ↦ pure success (record t { pair = some pair' })
        ]
  ]

  -- Only USB transports carry packets.
  unfoldable pub write_by_type : ℕ → Apacket → Exec (Transport P) Status
  unfolding usb_write_packet
  write_by_type f p t = elim t.kind [ usb_type ↦ usb_write_packet f p t | _ ↦ pure failure t ]

  -- The signal goes to the thread that reads the other end.
  abbrev pub signal_reader : ℕ → Transport P → Transport P
  signal_reader f t =
      if f == t.fd
      then record t { d_read_ctrol = t.d_read_ctrol +ℤ pos 1 }
      else record t { d_write_ctrol = t.d_write_ctrol +ℤ pos 1 }

  unfoldable pub write_packet : ℕ → Apacket → Exec (Transport P) Status
  unfolding write_by_type ◌+ℤ◌
  write_packet f p = do ret ← write_by_type f p; modify (signal_reader f); pure ret

  -- One round of the loop of usb_read_packet, with wait_for_usb_read_packet: the call returns, goes
  -- round again after taking a signal, or sleeps until a signal comes.
  pub data Round : Type 0 where
    returns : Status → Option Apacket → Transport P → Round
    again : Transport P → Round
    sleeps : Round

  -- The semaphore that the reader of this end waits on.
  abbrev pub take_signal : ℕ → Transport P → Round
  take_signal f t =
      if f == t.fd
      then (if ltb_ℤ t.d_write_ctrol (pos 1)
          then sleeps
          else again (record t { d_write_ctrol = t.d_write_ctrol -ℤ pos 1 }))
      else (if ltb_ℤ t.d_read_ctrol (pos 1)
          then sleeps
          else again (record t { d_read_ctrol = t.d_read_ctrol -ℤ pos 1 }))

  abbrev pub set_incoming : ℕ → BipBufferRec P → SocketPairRec P → SocketPairRec P
  set_incoming f bip pair =
      if f == pair.a_fd then record pair { b2a_bip = bip } else record pair { a2b_bip = bip }

  -- The caller's old packet is given back when a new one, or the end, has come.
  abbrev pub replace_packet : Status → Option Apacket → Option Apacket → Transport P → Round
  replace_packet ret old new t = elim (put_apacket old t) [
    | none ↦ sleeps
    | some (_, t') ↦ returns ret new t'
  ]

  unfoldable pub usb_read_packet : ℕ → Option Apacket → Transport P → Round
  unfolding put_apacket ◌-ℤ◌
  usb_read_packet f packet t = elim t.pair [
    | none ↦ returns failure packet t
    | some pair ↦
        if t.kicked
        then returns failure packet t
        else (let bip = if f == pair.a_fd then pair.b2a_bip else pair.a2b_bip in
            if bip.closed then replace_packet failure packet none t else elim bip.ptrlist [
              | none ↦ sleeps
              | some q ↦ elim (P.pop q) [
                | none ↦ take_signal f t
                | some (p, rest) ↦ replace_packet success packet (some p) (record t {
                  pair = some (set_incoming f (record bip { ptrlist = some rest }) pair);
                })
              ]
            ])
  ]

  unfoldable pub read_packet : ℕ → Option Apacket → Transport P → Round
  unfolding usb_read_packet
  read_packet f packet t = elim t.kind [
    | usb_type ↦ usb_read_packet f packet t
    | _ ↦ returns failure packet t
  ]
