-- ===== src/Remote.antt =====
-- The USB side of a transport (Catransport.cpp): read_from_remote and write_to_remote, with
-- remote_usb_read and remote_usb_write, and the layout of the message header on the wire.
pub mod Layout
pub mod Safe
pub mod Roundtrip
pub mod Windows
pub mod Tests
use adb_server_project.Common.{
  ℕ, ◌+◌, ◌*◌, ◌/◌, ◌%◌, ◌^◌, ◌≡◌, Bool, true, false, List, [], ◌∷◌, ◌++◌, Option, none, some,
  if◌then◌else◌, ◌==◌, ltb, take, length, not,
}
use adb_server_project.Packet.{
  Apacket, Amessage, Status, success, failure, fault, check_header, check_data,
}
use adb_server_project.Transport.State.{TransportType, usb_type, local_type, any_type, host_type}
use adb_server_project.Transport.Send.{overwrite}

-- usb_read and usb_write (usb_windows.cpp) on a pipe: the bytes read, or none where the read is
-- terminated; whether all bytes were written.
pub record Usb : Type 1 where
  pub Pipe : Type 0
  pub usb_read : ℕ → Pipe → Option (List ℕ) × Pipe
  pub usb_write : List ℕ → Pipe → Bool × Pipe

-- A word in memory, the low byte first.
abbrev pub word_bytes : ℕ → List ℕ
word_bytes w = w % 256 ∷ w / 256 % 256 ∷ w / 65536 % 256 ∷ w / 16777216 % 256 ∷ []

abbrev pub word_of : ℕ → ℕ → ℕ → ℕ → ℕ
word_of a b c d = a + 256 * b + 65536 * c + 16777216 * d

-- The 24 bytes of an amessage.
pub message_bytes : Amessage → List ℕ
message_bytes m =
    word_bytes m.command
    ++ (word_bytes m.arg0
        ++ (word_bytes m.arg1
            ++ (word_bytes m.data_length ++ (word_bytes m.data_check ++ word_bytes m.magic))))

-- The word at the start of the bytes, and the bytes behind it.
pub next_word : List ℕ → Option (ℕ × List ℕ)
next_word (a ∷ b ∷ c ∷ d ∷ bytes) = some (word_of a b c d, bytes)
next_word _ = none

abbrev pub and_then : {A : Type 0} → Option (ℕ × List ℕ) → (ℕ → List ℕ → Option A) → Option A
and_then none f = none
and_then (some (w, bytes)) f = f w bytes

-- The six words in the order of the struct; none on fewer than 24 bytes.
pub message_of : List ℕ → Option Amessage
unfolding next_word
message_of bytes = and_then (next_word bytes) (λ command bytes1.
    and_then (next_word bytes1) (λ arg0 bytes2. and_then (next_word bytes2) (λ arg1 bytes3.
      and_then (next_word bytes3) (λ data_length bytes4.
        and_then (next_word bytes4) (λ data_check bytes5.
          and_then (next_word bytes5) (λ magic bytes6. some (record {
            command = command;
            arg0 = arg0;
            arg1 = arg1;
            data_length = data_length;
            data_check = data_check;
            magic = magic;
          })))))))

module _ (U : Usb) where
  -- The status, the packet's new contents, and the pipe.
  abbrev pub Received : Type 0
  Received = Status × Option Apacket × U.Pipe

  -- The last check, of the payload's sum.
  abbrev pub checked : Apacket → U.Pipe → Received
  checked p pipe = elim (check_data (some p)) [
    | success ↦ (success, some p, pipe)
    | failure ↦ (failure, some p, pipe)
    | fault ↦ (fault, some p, pipe)
  ]

  -- The payload follows where one is announced; bytes behind the packet's array are a fault.
  abbrev pub read_payload : Apacket → U.Pipe → Received
  read_payload p pipe =
      if p.msg.data_length == 0
      then checked p pipe
      else (let r = U.usb_read p.msg.data_length pipe in
          elim r.0 [
            | none ↦ (failure, some p, r.1)
            | some bytes ↦
                if ltb (length p.payload) (length bytes)
                then (fault, some p, r.1)
                else checked (record p { payload = overwrite bytes p.payload }) r.1
          ])

  abbrev pub read_message : Apacket → Option Amessage → U.Pipe → Received
  read_message p none pipe = (failure, some p, pipe)
  read_message p (some msg) pipe =
      let q = record p { msg = msg } in
      elim (check_header (some q)) [
        | success ↦ read_payload q pipe
        | failure ↦ (failure, some q, pipe)
        | fault ↦ (fault, some q, pipe)
      ]

  pub remote_usb_read : Bool → Option Apacket → U.Pipe → Received
  unfolding message_of
  remote_usb_read false p pipe = (failure, p, pipe)
  remote_usb_read true none pipe = (success, none, pipe)
  remote_usb_read true (some p) pipe =
      let r = U.usb_read 24 pipe in
      elim r.0 [
        | none ↦ (failure, some p, r.1)
        | some bytes ↦ read_message p (message_of bytes) r.1
      ]

  -- Bytes behind the packet's array are a fault.
  pub remote_usb_write : Bool → Option Apacket → U.Pipe → Status × U.Pipe
  unfolding message_bytes
  remote_usb_write false p pipe = (failure, pipe)
  remote_usb_write true none pipe = (success, pipe)
  remote_usb_write true (some p) pipe =
      let r = U.usb_write (message_bytes p.msg) pipe in
      if not r.0
      then (failure, r.1)
      else (if p.msg.data_length == 0
          then (success, r.1)
          else (if ltb (length p.payload) p.msg.data_length
              then (fault, r.1)
              else (let d = U.usb_write (take p.msg.data_length p.payload) r.1 in
                  if d.0 then (success, d.1) else (failure, d.1))))

  -- Only USB transports have a remote end.
  unfoldable pub read_from_remote : TransportType → Bool → Apacket → U.Pipe → Received
  unfolding remote_usb_read
  read_from_remote kind usb p pipe = elim kind [
    | usb_type ↦ remote_usb_read usb (some p) pipe
    | _ ↦ (failure, some p, pipe)
  ]

  unfoldable pub write_to_remote : TransportType → Bool → Apacket → U.Pipe → Status × U.Pipe
  unfolding remote_usb_write
  write_to_remote kind usb p pipe = elim kind [
    | usb_type ↦ remote_usb_write usb (some p) pipe
    | _ ↦ (failure, pipe)
  ]
