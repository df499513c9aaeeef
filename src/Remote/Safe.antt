-- ===== src/Remote/Safe.antt =====
-- remote_usb_read on whatever the device sends.
use adb_server_project.Common.{
  ℕ, ◌≡◌, refl, ◌≢◌, ◌⊎◌, inl, inr, Bool, ◌≤◌, take, true, false, List, Option, none, some, arith,
  length, length-append, length-drop, drop, ltb, ◌==◌, Bool-cases, Option-cases, ◌∙◌,
}
use adb_server_project.Packet.{
  Apacket, Amessage, Status, success, failure, fault, check_header, check_data, max_payload,
}
use adb_server_project.Packet.Seal.{
  check_data-ne-fault, check_header-fits, check_header-same, check_header-ne-fault,
}
use adb_server_project.Transport.Send.{overwrite}
use adb_server_project.Remote.{
  Usb, remote_usb_read, read_message, read_payload, checked, message_of, message_bytes,
  remote_usb_write, Received,
}

-- A read that is not terminated gives the bytes that were asked for.
pub record IsExact (U : Usb) : Type 0 where
  pub read_length :
      (n : ℕ) (pipe : U.Pipe) (bytes : List ℕ)
      → (U.usb_read n pipe).0 ≡ some bytes
      → length bytes ≡ n

pub Status-cases : (s : Status) → (s ≡ success) ⊎ (s ≡ failure) ⊎ (s ≡ fault)
Status-cases success = inl refl
Status-cases failure = inr (inl refl)
Status-cases fault = inr (inr refl)

module _ (U : Usb) (exact : IsExact U) where
  -- No access outside the packet's array, and a packet that is accepted passes both checks.
  abbrev pub IsSafe : Received U → Type 0
  IsSafe r =
      (r.0 ≢ fault)
      × (r.0 ≡ success
          → (q : Apacket) × (r.1 ≡ some q)
            × (check_header (some q) ≡ success)
            × (check_data (some q) ≡ success)
            × (length q.payload ≡ max_payload))

  refused-IsSafe : (p : Option Apacket) (pipe : U.Pipe) → IsSafe (failure, p, pipe)
  refused-IsSafe p pipe = ((λ e. cc), (λ e. let never : failure ≡ success = e in cc))

  checked-IsSafe :
      (q : Apacket) (pipe : U.Pipe)
      → length q.payload ≡ max_payload
      → check_header (some q) ≡ success
      → IsSafe (checked U q pipe)
  checked-IsSafe q pipe size header = elim (Status-cases (check_data (some q))) [
    | inl good ↦ rw (good, checked) ((λ e. cc), (λ e. (q, refl, header, good, size)))
    | inr (inl bad) ↦ rw (bad, checked) (refused-IsSafe (some q) pipe)
    | inr (inr out) ↦ absurd (check_data-ne-fault q size header out)
  ]

  read_payload-IsSafe :
      (q : Apacket) (pipe : U.Pipe)
      → length q.payload ≡ max_payload
      → check_header (some q) ≡ success
      → IsSafe (read_payload U q pipe)
  read_payload-IsSafe q pipe size header = elim (Bool-cases (q.msg.data_length == 0)) [
    | inl empty ↦ rw (empty, read_payload) (checked-IsSafe q pipe size header)
    | inr more ↦ elim (Option-cases (U.usb_read q.msg.data_length pipe).0) [
      | inl ended ↦
          rw (more, ended, read_payload)
            (refused-IsSafe (some q) (U.usb_read q.msg.data_length pipe).1)
      | inr (bytes, got) ↦
          let full = exact.read_length q.msg.data_length pipe bytes got in
          let bound = check_header-fits q header in
          let inside : ltb (length q.payload) (length bytes) ≡ false = ground arith in
          rw (more, got, inside, read_payload)
            (checked-IsSafe (record q { payload = overwrite bytes q.payload })
              (U.usb_read q.msg.data_length pipe).1
              (omega (
                arith,
                length-append bytes (drop (length bytes) q.payload),
                length-drop (length bytes) q.payload,
              ))
              (check_header-same (record q { payload = overwrite bytes q.payload }) q refl
                ∙ header))
    ]
  ]

  read_message-IsSafe :
      (p : Apacket) (m : Option Amessage) (pipe : U.Pipe)
      → length p.payload ≡ max_payload
      → IsSafe (read_message U p m pipe)
  read_message-IsSafe p none pipe size = refused-IsSafe (some p) pipe
  read_message-IsSafe p (some msg) pipe size =
      let q = record p { msg = msg } in
      elim (Status-cases (check_header (some q))) [
        | inl good ↦ rw (good, read_message) (read_payload-IsSafe q pipe size good)
        | inr (inl bad) ↦ rw (bad, read_message) (refused-IsSafe (some q) pipe)
        | inr (inr out) ↦ absurd (check_header-ne-fault q out)
      ]

  -- Whatever bytes the device sends, and wherever it stops, remote_usb_read does not touch memory
  -- outside the packet's array of max_payload bytes; where it returns 0, the packet that it has read
  -- passes check_header and check_data, and its array is as long as before.
  pub remote_usb_read-IsSafe :
      (p : Apacket) (pipe : U.Pipe)
      → length p.payload ≡ max_payload
      → IsSafe (remote_usb_read U true (some p) pipe)
  unfolding remote_usb_read
  remote_usb_read-IsSafe p pipe size = elim (Option-cases (U.usb_read 24 pipe).0) [
    | inl ended ↦ rw (ended, remote_usb_read) (refused-IsSafe (some p) (U.usb_read 24 pipe).1)
    | inr (bytes, got) ↦
        rw (got, remote_usb_read)
          (read_message-IsSafe p (message_of bytes) (U.usb_read 24 pipe).1 size)
  ]

module _ (U : Usb) where
  -- Nor does remote_usb_write, on a packet whose announced bytes lie in its array.
  pub remote_usb_write-ne-fault :
      (usb : Bool) (p : Apacket) (pipe : U.Pipe)
      → p.msg.data_length ≤ length p.payload
      → (remote_usb_write U usb (some p) pipe).0 ≢ fault
  unfolding remote_usb_write
  remote_usb_write-ne-fault false p pipe fits = λ e. cc
  remote_usb_write-ne-fault true p pipe fits =
      let r = U.usb_write (message_bytes p.msg) pipe in
      let d = U.usb_write (take p.msg.data_length p.payload) r.1 in
      let inside : ltb (length p.payload) p.msg.data_length ≡ false = ground (arith, fits) in
      elim (Bool-cases r.0) [
        | inr lost ↦ rw (lost, remote_usb_write) (λ e. cc)
        | inl sent ↦ elim (Bool-cases (p.msg.data_length == 0)) [
          | inl empty ↦ rw (sent, empty, remote_usb_write) (λ e. cc)
          | inr more ↦ elim (Bool-cases d.0) [
            | inr lost ↦ rw (sent, more, inside, lost, remote_usb_write) (λ e. cc)
            | inl whole ↦ rw (sent, more, inside, whole, remote_usb_write) (λ e. cc)
          ]
        ]
      ]
