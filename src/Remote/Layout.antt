-- ===== src/Remote/Layout.antt =====
-- The header's bytes, read back, are the header.
use adb_server_project.Common.{ℕ, ◌/◌, ◌%◌, ◌^◌, ◌<◌, ◌≡◌, refl, some, arith, length}
use adb_server_project.Packet.{Amessage}
use adb_server_project.Remote.{word_of, message_bytes, next_word, message_of}

word_of-word_bytes :
    (w : ℕ)
    → w < 2 ^ 32
    → word_of (w % 256) (w / 256 % 256) (w / 65536 % 256) (w / 16777216 % 256) ≡ w
word_of-word_bytes w h = omega arith

-- Every word of the header fits into 32 bits.
pub record IsWords (m : Amessage) : Type 0 where
  pub command_fits : m.command < 2 ^ 32
  pub arg0_fits : m.arg0 < 2 ^ 32
  pub arg1_fits : m.arg1 < 2 ^ 32
  pub length_fits : m.data_length < 2 ^ 32
  pub check_fits : m.data_check < 2 ^ 32
  pub magic_fits : m.magic < 2 ^ 32

pub length-message_bytes : (m : Amessage) → length (message_bytes m) ≡ 24
unfolding message_bytes
length-message_bytes m = omega arith

pub message_of-message_bytes : (m : Amessage) → IsWords m → message_of (message_bytes m) ≡ some m
unfolding message_of message_bytes next_word
message_of-message_bytes m h =
    rw
      (
        word_of-word_bytes m.command h.command_fits,
        word_of-word_bytes m.arg0 h.arg0_fits,
        word_of-word_bytes m.arg1 h.arg1_fits,
        word_of-word_bytes m.data_length h.length_fits,
        word_of-word_bytes m.data_check h.check_fits,
        word_of-word_bytes m.magic h.magic_fits,
      )
      refl
