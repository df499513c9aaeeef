-- ===== src/Packet/Tests.antt =====
-- Tests of the packet checks, and each theorem about them at a concrete packet.
use adb_server_project.Common.{
  ℕ, ◌+◌, ◌≤◌, ◌≡◌, refl, ◌↔◌, ◌≢◌, none, ◌∷◌, some, arith, replicate, length-replicate, length,
  set,
}
use adb_server_project.Packet.{
  Apacket, Amessage, IsPacket, success, failure, fault, a_wrte, checksum, check_header, check_data,
  seal_packet, max_payload,
}
use adb_server_project.Packet.Seal.{
  check-seal_packet, check_header_iff, check_data-ne-fault, check_data-set,
}

-- "hi!" for channel 7, before it is sealed.
abbrev pub greeting_msg : Amessage
greeting_msg = record {
  command = a_wrte;
  arg0 = 100;
  arg1 = 7;
  data_length = 3;
  data_check = 0;
  magic = 0;
}

abbrev pub greeting : Apacket
greeting = record {
  len = 0;
  ptr = none;
  msg = greeting_msg;
  payload = b'h' ∷ b'i' ∷ b'!' ∷ replicate 4093 0;
}

abbrev pub sealed : Apacket
sealed = record greeting { msg = record greeting_msg { data_check = 242; magic = 3131813288 } }

-- The sealed bytes of "hi!".
seal_greeting : seal_packet greeting ≡ some sealed
unfolding seal_packet checksum
seal_greeting = refl

pub greeting_size : length greeting.payload ≡ max_payload
greeting_size = omega (arith, length-replicate {A = ℕ} 4093 0)

greeting-IsPacket : IsPacket greeting
greeting-IsPacket = record {
  command_fits = omega arith;
  length_fits = omega arith;
  array_size = greeting_size;
}

pub sealed_accepted : check_data (some sealed) ≡ success
unfolding check_data checksum
sealed_accepted = refl

check-seal_packet_example :
    (q : Apacket) × (seal_packet greeting ≡ some q)
    × (check_header (some q) ≡ success)
    × (check_data (some q) ≡ success)
    × (q.msg.command ≡ a_wrte)
    × (q.msg.arg0 ≡ 100)
    × (q.msg.arg1 ≡ 7)
    × (q.msg.data_length ≡ 3)
    × (q.payload ≡ greeting.payload)
check-seal_packet_example = check-seal_packet greeting greeting-IsPacket

check_header_iff_example :
    ((check_header (some sealed) ≡ success)
      ↔ ((3131813288 + a_wrte ≡ 0xffffffff) × (3 ≤ max_payload)))
    × (check_header (some sealed) ≢ fault)
check_header_iff_example = check_header_iff sealed (omega arith)

check_data-ne-fault_example : check_data (some sealed) ≢ fault
unfolding check_header
check_data-ne-fault_example = check_data-ne-fault sealed greeting_size refl

check_data-set_example :
    check_data (some (record sealed { payload = set sealed.payload 1 b'o' })) ≡ failure
check_data-set_example =
    check_data-set sealed 1 b'i' b'o' (omega (arith, greeting_size)) (omega arith) refl
      (omega arith) (omega arith) (omega arith) sealed_accepted

pub sealed_header : check_header (some sealed) ≡ success
unfolding check_header
sealed_header = refl
