-- ===== src/Remote/Roundtrip.antt =====
-- What remote_usb_write puts on its way, remote_usb_read takes at the other end.
use adb_server_project.Common.{
  ℕ, ◌≤◌, ◌≡◌, refl, inl, inr, true, false, List, [], ◌++◌, some, arith, length, length-append,
  length-take, take, drop, ltb, ◌==◌, Bool-cases, ap, sym, ◌∙◌, subst, append-nil, append_assoc,
  take-length-append, if-true, if-false,
}
use adb_server_project.Packet.{
  Apacket, Status, success, failure, check_header, check_data, max_payload,
}
use adb_server_project.Packet.Checksum.{checksum-take}
use adb_server_project.Packet.Seal.{check_header-fits, check_header-same, check_data-same}
use adb_server_project.Transport.Send.{overwrite}
use adb_server_project.Remote.{
  Usb, remote_usb_read, remote_usb_write, read_message, read_payload, checked, message_bytes,
  Received,
}
use adb_server_project.Remote.Layout.{IsWords, length-message_bytes, message_of-message_bytes}

-- The two pipes of a device: the bytes that were written to the one, and the bytes that come in on the
-- other; each keeps their order.
pub record IsStream (U : Usb) : Type 0 where
  pub outgoing : U.Pipe → List ℕ
  pub contents : U.Pipe → List ℕ
  pub written :
      (bytes : List ℕ) (pipe : U.Pipe)
      → (U.usb_write bytes pipe).0 ≡ true
      → outgoing (U.usb_write bytes pipe).1 ≡ outgoing pipe ++ bytes
  pub taken :
      (bytes rest : List ℕ) (pipe : U.Pipe)
      → 1 ≤ length bytes
      → contents pipe ≡ bytes ++ rest
      → ((U.usb_read (length bytes) pipe).0 ≡ some bytes)
        × (contents (U.usb_read (length bytes) pipe).1 ≡ rest)

module _ (U : Usb) (stream : IsStream U) where
  taken_at :
      (n : ℕ) (bytes rest : List ℕ) (pipe : U.Pipe)
      → length bytes ≡ n
      → 1 ≤ n
      → stream.contents pipe ≡ bytes ++ rest
      → ((U.usb_read n pipe).0 ≡ some bytes) × (stream.contents (U.usb_read n pipe).1 ≡ rest)
  taken_at n bytes rest pipe e some_asked h =
      subst
        (λ k. ((U.usb_read k pipe).0 ≡ some bytes) × (stream.contents (U.usb_read k pipe).1 ≡ rest))
        e (stream.taken bytes rest pipe (omega (arith, e, some_asked)) h)

  -- A successful write has put the header and the announced bytes into the pipe.
  remote_usb_write-contents :
      (q : Apacket) (pipe pipe' : U.Pipe)
      → q.msg.data_length ≤ length q.payload
      → remote_usb_write U true (some q) pipe ≡ (success, pipe')
      → stream.outgoing pipe'
        ≡ (stream.outgoing pipe ++ message_bytes q.msg) ++ take q.msg.data_length q.payload
  unfolding remote_usb_write
  remote_usb_write-contents q pipe pipe' fits e =
      let inside : ltb (length q.payload) q.msg.data_length ≡ false = ground (arith, fits) in
      let r = U.usb_write (message_bytes q.msg) pipe in
      let d = U.usb_write (take q.msg.data_length q.payload) r.1 in
      elim (Bool-cases r.0) [
        | inr lost ↦
            let e' = rw (lost, remote_usb_write) at e in
            let never : failure ≡ success = ap (λ (x : Status × U.Pipe). x.0) e' in cc
        | inl sent ↦
            let head = stream.written (message_bytes q.msg) pipe sent in
            elim (Bool-cases (q.msg.data_length == 0)) [
              | inl empty ↦
                  let e' = rw (sent, empty, remote_usb_write) at e in
                  let same : r.1 ≡ pipe' = ap (λ (x : Status × U.Pipe). x.1) e' in
                  let z : q.msg.data_length ≡ 0 = ground arith in
                  ap stream.outgoing (sym same)
                  ∙ head
                  ∙ sym (append-nil (stream.outgoing pipe ++ message_bytes q.msg))
                  ∙ ap (λ n. (stream.outgoing pipe ++ message_bytes q.msg) ++ take n q.payload)
                      (sym z)
              | inr more ↦ elim (Bool-cases d.0) [
                | inr lost ↦
                    let e' = rw (sent, more, inside, lost, remote_usb_write) at e in
                    let never : failure ≡ success = ap (λ (x : Status × U.Pipe). x.0) e' in cc
                | inl whole ↦
                    let e' = rw (sent, more, inside, whole, remote_usb_write) at e in
                    let same : d.1 ≡ pipe' = ap (λ (x : Status × U.Pipe). x.1) e' in
                    ap stream.outgoing (sym same)
                    ∙ stream.written (take q.msg.data_length q.payload) r.1 whole
                    ∙ ap (λ l. l ++ take q.msg.data_length q.payload) head
              ]
            ]
      ]

  -- What was read is the packet that was sent, and the rest is still in the pipe.
  abbrev pub IsCopy : Apacket → List ℕ → Received U → Type 0
  IsCopy q rest r =
      (p : Apacket) × (pipe : U.Pipe) × (r ≡ (success, some p, pipe))
      × (p.msg ≡ q.msg)
      × (take q.msg.data_length p.payload ≡ take q.msg.data_length q.payload)
      × (stream.contents pipe ≡ rest)

  checked-IsCopy :
      (q : Apacket) (payload rest : List ℕ) (p : Apacket) (pipe : U.Pipe)
      → q.msg.data_length ≤ length q.payload
      → q.msg.data_length ≤ length payload
      → check_data (some q) ≡ success
      → take q.msg.data_length payload ≡ take q.msg.data_length q.payload
      → stream.contents pipe ≡ rest
      → IsCopy q rest (checked U (record p { msg = q.msg; payload = payload }) pipe)
  checked-IsCopy q payload rest p pipe fits room sum same left =
      let p' = record p { msg = q.msg; payload = payload } in
      let good : check_data (some p') ≡ success =
        check_data-same p' q refl
          (checksum-take q.msg.data_length 0 payload q.payload same room fits)
        ∙ sum in
      (p', pipe, rw (good, checked) refl, refl, same, left)

  read_payload-IsCopy :
      (q p : Apacket) (rest : List ℕ) (pipe : U.Pipe)
      → q.msg.data_length ≤ length q.payload
      → q.msg.data_length ≤ length p.payload
      → check_data (some q) ≡ success
      → stream.contents pipe ≡ take q.msg.data_length q.payload ++ rest
      → IsCopy q rest (read_payload U (record p { msg = q.msg }) pipe)
  read_payload-IsCopy q p rest pipe fits room sum h = elim (Bool-cases (q.msg.data_length == 0)) [
    | inl empty ↦
        let z : q.msg.data_length ≡ 0 = ground arith in
        subst (IsCopy q rest) (sym (if-true (q.msg.data_length == 0) _ _ empty)) (
          checked-IsCopy q p.payload rest p pipe fits room sum
            (ap (λ n. take n p.payload) z ∙ sym (ap (λ n. take n q.payload) z))
            (h ∙ ap (λ n. take n q.payload ++ rest) z))
    | inr more ↦
        let bytes = take q.msg.data_length q.payload in
        let size : length bytes ≡ q.msg.data_length =
          omega (arith, length-take q.msg.data_length q.payload) in
        let asked : 1 ≤ q.msg.data_length = ground arith in
        let got = taken_at q.msg.data_length bytes rest pipe size asked h in
        let inside : ltb (length p.payload) (length bytes) ≡ false = ground arith in
        subst (IsCopy q rest)
          (sym (if-false (q.msg.data_length == 0) _ _ more ∙ rw (got.0, inside) refl))
          (checked-IsCopy q (overwrite bytes p.payload) rest p (U.usb_read q.msg.data_length pipe).1
            fits (omega (arith, length-append bytes (drop (length bytes) p.payload))) sum
            (ap (λ n. take n (overwrite bytes p.payload)) (sym size)
              ∙ take-length-append bytes (drop (length bytes) p.payload))
            got.1)
  ]

  -- A packet of 32-bit words that passes both checks and that remote_usb_write has written with result
  -- 0, as the first on its pipe, is what remote_usb_read takes, with result 0, wherever the bytes that
  -- were written come in: the header and the announced bytes are the same, whatever the receiving
  -- packet held before, and the bytes that come behind them are left. Both packets have arrays of
  -- max_payload bytes.
  pub remote_usb_write-read :
      (q p : Apacket) (rest : List ℕ) (pipe pipe' other_end : U.Pipe)
      → IsWords q.msg
      → length q.payload ≡ max_payload
      → length p.payload ≡ max_payload
      → check_header (some q) ≡ success
      → check_data (some q) ≡ success
      → stream.outgoing pipe ≡ []
      → remote_usb_write U true (some q) pipe ≡ (success, pipe')
      → stream.contents other_end ≡ stream.outgoing pipe' ++ rest
      → IsCopy q rest (remote_usb_read U true (some p) other_end)
  unfolding remote_usb_read
  remote_usb_write-read q p rest pipe pipe' other_end words size room header sum empty wrote
        arrives =
      let bytes = take q.msg.data_length q.payload in
      let bound = check_header-fits q header in
      let full : stream.contents other_end ≡ message_bytes q.msg ++ (bytes ++ rest) =
        arrives
        ∙ ap (λ l. l ++ rest)
            (remote_usb_write-contents q pipe pipe' (omega arith) wrote
              ∙ ap (λ l. (l ++ message_bytes q.msg) ++ bytes) empty)
        ∙ append_assoc (message_bytes q.msg) bytes rest in
      let got =
        taken_at 24 (message_bytes q.msg) (bytes ++ rest) other_end (length-message_bytes q.msg)
          (omega arith) full in
      let accepted : check_header (some (record p { msg = q.msg })) ≡ success =
        check_header-same (record p { msg = q.msg }) q refl ∙ header in
      rw (got.0, message_of-message_bytes q.msg words, accepted, remote_usb_read, read_message)
        (read_payload-IsCopy q p rest (U.usb_read 24 other_end).1 (omega arith) (omega arith) sum
          got.1)
