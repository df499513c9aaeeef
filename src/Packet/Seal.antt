-- ===== src/Packet/Seal.antt =====
-- What the receiver's checks (check_header, check_data) say of a packet that the sender sealed in
-- send_packet, and of a damaged one.
use adb_server_project.Common.{
  ℕ, ◌+◌, ◌%◌, ◌^◌, ◌≤◌, ◌<◌, ◌≡◌, refl, ◌≢◌, ◌↔◌, some, arith, length, length-set, set, get_elem?,
}
use adb_server_project.Common.Bits.{bit_xor_word}
use adb_server_project.Packet.{
  Apacket, IsPacket, success, failure, fault, check_header, check_data, seal_packet, magic_of,
  max_payload, checksum,
}
use adb_server_project.Packet.Checksum.{sum_of, checksum-eq-sum_of, sum_of-set}

seal_packet-eq :
    (p : Apacket)
    → IsPacket p
    → seal_packet p
      ≡ some (record p {
        msg = record p.msg {
          magic = magic_of p.msg.command;
          data_check = sum_of p.msg.data_length p.payload % 2 ^ 32;
        };
      })
unfolding seal_packet
seal_packet-eq p v =
    ground (arith, v.length_fits, v.array_size, checksum-eq-sum_of p.msg.data_length 0 p.payload)

-- Every well-formed packet can be sealed, and the sealed packet passes both checks of the receiver
-- with its command, arguments, length and payload as they were.
pub check-seal_packet :
    (p : Apacket)
    → IsPacket p
    → (q : Apacket) × (seal_packet p ≡ some q)
      × (check_header (some q) ≡ success)
      × (check_data (some q) ≡ success)
      × (q.msg.command ≡ p.msg.command)
      × (q.msg.arg0 ≡ p.msg.arg0)
      × (q.msg.arg1 ≡ p.msg.arg1)
      × (q.msg.data_length ≡ p.msg.data_length)
      × (q.payload ≡ p.payload)
unfolding check_header check_data
check-seal_packet p v = (
  _,
  seal_packet-eq p v,
  ground (arith, v.length_fits),
  ground (arith, v.length_fits, v.array_size, checksum-eq-sum_of p.msg.data_length 0 p.payload),
  refl,
  refl,
  refl,
  refl,
  refl,
)

-- For a 32-bit command, check_header accepts exactly when the magic is the command's complement and
-- the payload fits; every other packet is refused, and none makes it fault.
pub check_header_iff :
    (p : Apacket)
    → p.msg.command < 2 ^ 32
    → ((check_header (some p) ≡ success)
        ↔ ((p.msg.magic + p.msg.command ≡ 0xffffffff) × (p.msg.data_length ≤ max_payload)))
      × (check_header (some p) ≢ fault)
unfolding check_header
check_header_iff p h = (ground (arith, bit_xor_word p.msg.command h), ground arith)

-- After check_header has accepted a packet with its full array, check_data reads no byte outside it.
pub check_data-ne-fault :
    (p : Apacket)
    → length p.payload ≡ max_payload
    → check_header (some p) ≡ success
    → check_data (some p) ≢ fault
unfolding check_header check_data
check_data-ne-fault p size ok = ground (arith, checksum-eq-sum_of p.msg.data_length 0 p.payload)

-- If one byte of an accepted payload is changed to another byte, check_data refuses the packet.
pub check_data-set :
    (p : Apacket) (i b c : ℕ)
    → p.msg.data_length ≤ length p.payload
    → i < p.msg.data_length
    → get_elem? p.payload i ≡ some b
    → b < 256
    → c < 256
    → b ≢ c
    → check_data (some p) ≡ success
    → check_data (some (record p { payload = set p.payload i c })) ≡ failure
unfolding check_data
check_data-set p i b c size h e hb hc ne ok = ground (
  arith,
  checksum-eq-sum_of p.msg.data_length 0 p.payload,
  checksum-eq-sum_of p.msg.data_length 0 (set p.payload i c),
  length-set p.payload i c,
  sum_of-set p.msg.data_length i b c p.payload h e,
)

-- A packet whose length lies within its array can be sealed, which changes only the two checks.
pub seal_packet-wire :
    (p : Apacket)
    → p.msg.data_length ≤ length p.payload
    → (q : Apacket) × (seal_packet p ≡ some q)
      × (q.msg.command ≡ p.msg.command)
      × (q.msg.arg0 ≡ p.msg.arg0)
      × (q.msg.arg1 ≡ p.msg.arg1)
      × (q.msg.data_length ≡ p.msg.data_length)
      × (q.payload ≡ p.payload)
unfolding seal_packet
seal_packet-wire p h = (
  record p {
    msg = record p.msg {
      magic = magic_of p.msg.command;
      data_check = sum_of p.msg.data_length p.payload % 2 ^ 32;
    };
  },
  ground (arith, checksum-eq-sum_of p.msg.data_length 0 p.payload),
  refl,
  refl,
  refl,
  refl,
  refl,
)

-- A header that check_header accepts announces no more than the array holds.
pub check_header-fits :
    (p : Apacket) → check_header (some p) ≡ success → p.msg.data_length ≤ max_payload
unfolding check_header
check_header-fits p e = ground arith

pub check_header-ne-fault : (p : Apacket) → check_header (some p) ≢ fault
unfolding check_header
check_header-ne-fault p = ground arith

-- check_data looks at the announced bytes only.
pub check_data-same :
    (p q : Apacket)
    → p.msg ≡ q.msg
    → checksum p.msg.data_length 0 p.payload ≡ checksum p.msg.data_length 0 q.payload
    → check_data (some p) ≡ check_data (some q)
unfolding check_data
check_data-same p q same sums = rw (sums, same) refl

-- check_header looks at the header only.
pub check_header-same :
    (p q : Apacket) → p.msg ≡ q.msg → check_header (some p) ≡ check_header (some q)
unfolding check_header
check_header-same p q same = rw same refl
