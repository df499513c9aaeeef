-- ===== src/Packet.antt =====
-- The packet of the adb protocol: adb_struct.h (amessage, apacket, the command identifiers), and
-- check_header and check_data of adb_func.cpp. A 32-bit word is a number below 2 ^ 32; a byte is a
-- number below 256.
pub mod Checksum
pub mod Seal
pub mod Tests
use Prim.Native.Nat.{bit_xor}
use adb_server_project.Common.{
  ℕ, zero, suc, ◌+◌, ◌%◌, ◌^◌, ◌≤◌, ◌<◌, ◌≡◌, Bool, List, [], ◌∷◌, Option, none, some,
  if◌then◌else◌, ltb, ◌==◌, length,
}

abbrev pub max_payload : ℕ
max_payload = 4096

abbrev pub a_sync : ℕ
a_sync = 0x434e5953

abbrev pub a_cnxn : ℕ
a_cnxn = 0x4e584e43

abbrev pub a_open : ℕ
a_open = 0x4e45504f

abbrev pub a_okay : ℕ
a_okay = 0x59414b4f

abbrev pub a_clse : ℕ
a_clse = 0x45534c43

abbrev pub a_wrte : ℕ
a_wrte = 0x45545257

abbrev pub a_auth : ℕ
a_auth = 0x48545541

abbrev pub a_version : ℕ
a_version = 0x01000000

pub record Amessage : Type 0 where
  pub command : ℕ
  pub arg0 : ℕ
  pub arg1 : ℕ
  pub data_length : ℕ
  pub data_check : ℕ
  pub magic : ℕ

-- `ptr` is null, or an offset into the packet's own data.
pub record Apacket : Type 0 where
  pub len : ℕ
  pub ptr : Option ℕ
  pub msg : Amessage
  pub payload : List ℕ

-- What an `int` function of 0 and -1 returns; `fault` is an access outside an array.
pub data Status : Type 0 where
  success failure fault : Status

-- `while (count-- > 0) sum += *x++`; `none` is a read past the array.
pub checksum : ℕ → ℕ → List ℕ → Option ℕ
checksum zero sum x = some sum
checksum (suc count) sum [] = none
checksum (suc count) sum (b ∷ x) = checksum count ((sum + b) % 2 ^ 32) x

abbrev pub magic_of : ℕ → ℕ
magic_of command = bit_xor command 0xffffffff

pub check_header : Option Apacket → Status
check_header none = failure
check_header (some p) =
    if p.msg.magic == magic_of p.msg.command
    then (if ltb max_payload p.msg.data_length then failure else success)
    else failure

abbrev compare_sum : Option ℕ → ℕ → Status
compare_sum none expected = fault
compare_sum (some sum) expected = if sum == expected then success else failure

pub check_data : Option Apacket → Status
check_data none = failure
check_data (some p) = compare_sum (checksum p.msg.data_length 0 p.payload) p.msg.data_check

-- The first half of Catransport::send_packet: the magic and the checksum are filled in.
unfoldable pub seal_packet : Apacket → Option Apacket
unfolding checksum
seal_packet p = elim (checksum p.msg.data_length 0 p.payload) [
  | none ↦ none
  | some sum ↦
      some (record p { msg = record p.msg { magic = magic_of p.msg.command; data_check = sum } })
]

-- A packet as the protocol lays it out: every word fits, and the array has its declared size.
pub record IsPacket (p : Apacket) : Type 0 where
  pub command_fits : p.msg.command < 2 ^ 32
  pub length_fits : p.msg.data_length ≤ max_payload
  pub array_size : length p.payload ≡ max_payload
