-- ===== src/Threads/Gate.antt =====
-- The input thread lets packets through to the device only after the SYNC with the current token.
use adb_server_project.Common.{
  ℕ, zero, suc, ◌≤◌, ◌≡◌, ◌≢◌, refl, inl, inr, Bool, true, false, ◌||◌, List, [], ◌∷◌, none, some,
  ap, sym, ◌∙◌, Bool-cases, ◌==◌, if◌then◌else◌, length,
}
use adb_server_project.Packet.{Status, success, failure, fault, Apacket, a_sync}
use adb_server_project.Platform.{Platform, IsFifo}
use adb_server_project.Transport.State.{
  Transport, TransportType, usb_type, local_type, any_type, host_type,
}
use adb_server_project.Transport.Packets.{put_apacket}
use adb_server_project.Remote.{Usb, write_to_remote}
use adb_server_project.Threads.{
  Machine, Turn, goes_on, leaves, breaks, waits, after_write, faults, after_put, input_packet,
  input_turn,
}
use adb_server_project.Threads.Waiting.{HasWaiting, read_waiting, put_waiting}
use adb_server_project.Transport.Read.Stream.{AllWhole}
use adb_server_project.Remote.Safe.{remote_usb_write-ne-fault}

abbrev pub is_offline : Apacket → Bool
is_offline p = if p.msg.command == a_sync then p.msg.arg0 == 0 else false

-- Whether the thread is active behind a packet.
abbrev pub active_after : ℕ → Apacket → Bool → Bool
active_after token p active =
    if p.msg.command == a_sync then p.msg.arg1 == token || active else active

-- The packets that go to the device, up to a SYNC offline.
abbrev pub passed : ℕ → Bool → List Apacket → List Apacket
passed token active [] = []
passed token active (p ∷ ps) =
    let rest = passed token (active_after token p active) ps in
    if is_offline p
    then []
    else (if p.msg.command == a_sync then rest else (if active then p ∷ rest else rest))

abbrev pub has_offline : List Apacket → Bool
has_offline [] = false
has_offline (p ∷ ps) = let rest = has_offline ps in if is_offline p then true else rest

passed_offline :
    (token : ℕ) (active : Bool) (p : Apacket) (ps : List Apacket)
    → is_offline p ≡ true
    → passed token active (p ∷ ps) ≡ []
passed_offline token active p ps o = rw o refl

module _ (P : Platform) (fifo : IsFifo P) (U : Usb) (fd : ℕ) where
  abbrev pub write_all : Bool → List Apacket → U.Pipe → U.Pipe
  write_all usb [] pipe = pipe
  write_all usb (p ∷ ps) pipe = write_all usb ps (write_to_remote U usb_type usb p pipe).1

  -- Turns of the input thread, until it leaves its loop.
  unfoldable pub input_run : ℕ → Machine P U → Turn P U
  unfolding input_turn
  input_run zero m = goes_on m
  input_run (suc n) m = elim (input_turn P U fd m) [
    | goes_on n' ↦ input_run n n'
    | leaves n' ↦ leaves n'
    | breaks n' ↦ breaks n'
    | waits ↦ waits
    | faults ↦ faults
  ]

  put_next :
      (p : Apacket) (m : Machine P U) (next : Machine P U → Turn P U) (t : Transport P)
      → put_apacket P (some p) m.transport ≡ some (tt, t)
      → after_put P U p m next ≡ next (record m { transport = t })
  put_next p m next t e =
      ap (λ o. elim o [ none ↦ waits | some (_, t') ↦ next (record m { transport = t' }) ]) e

  -- No byte behind the array of a packet is written.
  write_to_remote-ne-fault :
      (kind : TransportType) (usb : Bool) (p : Apacket) (pipe : U.Pipe)
      → p.msg.data_length ≤ length p.payload
      → (write_to_remote U kind usb p pipe).0 ≢ fault
  unfolding write_to_remote
  write_to_remote-ne-fault usb_type usb p pipe fits = remote_usb_write-ne-fault U usb p pipe fits
  write_to_remote-ne-fault local_type usb p pipe fits = λ e. cc
  write_to_remote-ne-fault any_type usb p pipe fits = λ e. cc
  write_to_remote-ne-fault host_type usb p pipe fits = λ e. cc

  after_write-put :
      (p : Apacket) (m : Machine P U) (r : Status × U.Pipe)
      → r.0 ≢ fault
      → after_write P U p m r ≡ after_put P U p (record m { pipe = r.1 }) goes_on
  after_write-put p m (success, pipe) ok = refl
  after_write-put p m (failure, pipe) ok = refl
  after_write-put p m (fault, pipe) ok = absurd (ok refl)

  -- What a packet does to the pipe.
  abbrev pipe_after : Bool → Apacket → Bool → U.Pipe → U.Pipe
  pipe_after usb p active pipe =
      if p.msg.command == a_sync
      then pipe
      else (if active then (write_to_remote U usb_type usb p pipe).1 else pipe)

  -- The machine behind a packet, and whether the loop goes on.
  packet_turn :
      (p : Apacket) (ps : List Apacket) (m : Machine P U)
      → p.msg.data_length ≤ length p.payload
      → HasWaiting P fifo fd ps m.transport
      → (n : Machine P U) × (input_packet P U p m ≡ (if is_offline p then leaves n else goes_on n))
        × HasWaiting P fifo fd ps n.transport
        × (n.transport.sync_token ≡ m.transport.sync_token)
        × (n.transport.usb ≡ m.transport.usb)
        × (n.active
            ≡ (if is_offline p then m.active else active_after m.transport.sync_token p m.active))
        × (n.pipe ≡ pipe_after m.transport.usb p m.active m.pipe)
  unfolding input_packet
  packet_turn p ps m fits h =
      let (t, put, h', token, usb) = put_waiting P fifo fd p ps m.transport h in
      elim (Bool-cases (p.msg.command == a_sync)) [
        | inl c ↦ elim (Bool-cases (p.msg.arg0 == 0)) [
          | inl z ↦
              let n = record m { transport = t } in
              let run : input_packet P U p m ≡ leaves n =
                simp (input_packet, after_put, c, z, put) refl in
              (n, run ∙ rw (c, z) refl, h', token, usb, rw (c, z) refl, rw c refl)
          | inr z ↦
              let n = record m {
                transport = t;
                active = p.msg.arg1 == m.transport.sync_token || m.active;
              } in
              let run : input_packet P U p m ≡ goes_on n =
                simp (input_packet, after_put, c, z, put) refl in
              (n, run ∙ rw (c, z) refl, h', token, usb, rw (c, z) refl, rw c refl)
        ]
        | inr c ↦
            let wrote = write_to_remote U m.transport.kind m.transport.usb p m.pipe in
            let written = record m { pipe = wrote.1 } in
            let step : Bool → Turn P U =
              λ b. if b then after_write P U p m wrote else after_put P U p m goes_on in
            let start : input_packet P U p m ≡ step m.active = rw (input_packet, c) refl in
            elim (Bool-cases m.active) [
              | inl y ↦
                  let n = record written { transport = t } in
                  let whole =
                    write_to_remote-ne-fault m.transport.kind m.transport.usb p m.pipe fits in
                  let run : input_packet P U p m ≡ goes_on n =
                    start
                    ∙ ap step y
                    ∙ after_write-put p m wrote whole
                    ∙ put_next p written goes_on t put in
                  (
                    n,
                    run ∙ rw c refl,
                    h',
                    token,
                    usb,
                    rw c refl,
                    ap (λ k. (write_to_remote U k m.transport.usb p m.pipe).1) h.is_usb
                        ∙ rw (c, y) refl,
                  )
              | inr y ↦
                  let n = record m { transport = t } in
                  let run : input_packet P U p m ≡ goes_on n =
                    start ∙ ap step y ∙ put_next p m goes_on t put in
                  (n, run ∙ rw c refl, h', token, usb, rw c refl, rw (c, y) refl)
            ]
      ]

  offline_pipe :
      (usb : Bool) (p : Apacket) (active : Bool) (pipe : U.Pipe)
      → is_offline p ≡ true
      → pipe_after usb p active pipe ≡ pipe
  offline_pipe usb p active pipe o = elim (Bool-cases (p.msg.command == a_sync)) [
    | inl c ↦ rw c refl
    | inr c ↦ let never : false ≡ true = rw c at o in cc
  ]

  write_all-passed :
      (usb : Bool) (token : ℕ) (p : Apacket) (ps : List Apacket) (active : Bool) (pipe : U.Pipe)
      → is_offline p ≡ false
      → write_all usb (passed token active (p ∷ ps)) pipe
        ≡ write_all usb
            (passed token (active_after token p active) ps)
            (pipe_after usb p active pipe)
  write_all-passed usb token p ps active pipe o = elim (Bool-cases (p.msg.command == a_sync)) [
    | inl c ↦ elim (Bool-cases (p.msg.arg0 == 0)) [
      | inl z ↦ let never : true ≡ false = rw (c, z) at o in cc
      | inr z ↦ rw (c, z) refl
    ]
    | inr c ↦ elim (Bool-cases active) [ inl y ↦ rw (c, y) refl | inr y ↦ rw (c, y) refl ]
  ]

  -- A packet that waits is one turn.
  waiting_turn :
      (p : Apacket) (ps : List Apacket) (m : Machine P U)
      → p.msg.data_length ≤ length p.payload
      → HasWaiting P fifo fd (p ∷ ps) m.transport
      → (n : Machine P U) × (input_turn P U fd m ≡ (if is_offline p then leaves n else goes_on n))
        × HasWaiting P fifo fd ps n.transport
        × (n.transport.sync_token ≡ m.transport.sync_token)
        × (n.transport.usb ≡ m.transport.usb)
        × (n.active
            ≡ (if is_offline p then m.active else active_after m.transport.sync_token p m.active))
        × (n.pipe ≡ pipe_after m.transport.usb p m.active m.pipe)
  unfolding input_turn
  waiting_turn p ps m fits h =
      let (t, read, h', token, usb) = read_waiting P fifo fd p ps m.transport h in
      let (n, run, h'', token', usb', active, pipe) =
        packet_turn p ps (record m { transport = t }) fits h' in
      let start : input_turn P U fd m ≡ input_packet P U p (record m { transport = t }) =
        simp (input_turn, read) refl in
      (
        n,
        start ∙ run,
        h'',
        token' ∙ token,
        usb' ∙ usb,
        active ∙ ap (λ k. if is_offline p then m.active else active_after k p m.active) token,
        pipe ∙ ap (λ u. pipe_after u p m.active m.pipe) usb,
      )

  -- Where the packets ps, whose announced bytes lie in their arrays, wait in the pair of a USB transport
  -- that is there, as many turns of the input thread as there are packets end the loop where a SYNC offline is among them and go on otherwise,
  -- none of them waits or leaves an array, and what the device is written is what `passed` keeps of ps: of
  -- the packets in front of the first SYNC offline, in their order, the ones that are no SYNC and have
  -- a SYNC with the transport's token before them (all that are no SYNC, where the thread is active
  -- at the start).
  pub input_run-passed :
      (ps : List Apacket) (m : Machine P U)
      → AllWhole ps
      → HasWaiting P fifo fd ps m.transport
      → (n : Machine P U) × (input_run (length ps) m
          ≡ (if has_offline ps then leaves n else goes_on n))
        × (n.pipe ≡ write_all m.transport.usb (passed m.transport.sync_token m.active ps) m.pipe)
  unfolding input_run
  input_run-passed [] m whole h = (m, refl, refl)
  input_run-passed (p ∷ ps) m whole h =
      let (n, run, h', token, usb, active, pipe) = waiting_turn p ps m whole.0 h in
      let next : Turn P U → Turn P U = λ o. elim o [
        | goes_on n' ↦ input_run (length ps) n'
        | leaves n' ↦ leaves n'
        | breaks n' ↦ breaks n'
        | waits ↦ waits
        | faults ↦ faults
      ] in
      let start : input_run (length (p ∷ ps)) m
          ≡ next (if is_offline p then leaves n else goes_on n) =
        ap next run in
      elim (Bool-cases (is_offline p)) [
        | inl o ↦ (
          n,
          start
              ∙ ap (λ b. next (if b then leaves n else goes_on n)) o
              ∙ ap (λ b. if (if b then true else has_offline ps) then leaves n else goes_on n)
                  (sym o),
          pipe
              ∙ offline_pipe m.transport.usb p m.active m.pipe o
              ∙ ap (λ l. write_all m.transport.usb l m.pipe)
                  (sym (passed_offline m.transport.sync_token m.active p ps o)),
        )
        | inr o ↦
            let (l, rest, sent) = input_run-passed ps n whole.1 h' in
            let left : n.active ≡ active_after m.transport.sync_token p m.active =
              active
              ∙ ap (λ b. if b then m.active else active_after m.transport.sync_token p m.active)
                  o in
            let stays : has_offline ps ≡ has_offline (p ∷ ps) =
              ap (λ b. if b then true else has_offline ps) (sym o) in
            let next_pipe =
              (ap (λ u. write_all u (passed n.transport.sync_token n.active ps) n.pipe) usb
                ∙ ap (λ k. write_all m.transport.usb (passed k n.active ps) n.pipe) token
                ∙ ap (λ a. write_all m.transport.usb (passed m.transport.sync_token a ps) n.pipe)
                    left
                ∙ ap
                    (write_all m.transport.usb (
                      passed m.transport.sync_token (active_after m.transport.sync_token p m.active)
                        ps))
                    pipe
                ∙ sym (
                    write_all-passed m.transport.usb m.transport.sync_token p ps m.active m.pipe
                      o)) in
            (
              l,
              start
                  ∙ ap (λ b. next (if b then leaves n else goes_on n)) o
                  ∙ rest
                  ∙ ap (λ b. if b then leaves l else goes_on l) stays,
              sent ∙ next_pipe,
            )
      ]
