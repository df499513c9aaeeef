-- ===== src/Remote/Tests.antt =====
-- A pipe that is a list of bytes, and a packet that goes through it.
use adb_server_project.Common.{
  ℕ, Bool, zero, suc, ◌≤◌, append-nil, take-nil, drop-nil, ◌≡◌, refl, inl, inr, true, false, List,
  [], ◌∷◌, ◌++◌, Option, none, some, arith, length, length-append, length-take, take, drop, ltb,
  if◌then◌else◌, Bool-cases, ap, sym, ◌∙◌, take-length-append, drop-length-append,
}
use adb_server_project.Packet.{success}
use adb_server_project.Packet.Tests.{
  greeting, greeting_size, sealed, sealed_accepted, sealed_header,
}
use adb_server_project.Remote.{Usb, remote_usb_read, remote_usb_write, message_bytes}
use adb_server_project.Remote.Layout.{IsWords}
use adb_server_project.Remote.Safe.{IsExact, IsSafe, remote_usb_read-IsSafe}
use adb_server_project.Remote.Roundtrip.{IsCopy, remote_usb_write-read}
use adb_server_project.Remote.Windows.{
  AdbWinApi, ArePipes, Opened, windows_usb, usb_write, take_all, windows_usb-IsExact,
  windows_usb-IsStream, usb_read, usb_read-coming_in, coming_in,
}

abbrev read_list : ℕ → List ℕ → Option (List ℕ) × List ℕ
read_list n pipe = if ltb (length pipe) n then (none, []) else (some (take n pipe), drop n pipe)

abbrev pub list_usb : Usb
list_usb = record {
  Pipe = List ℕ;
  usb_read = read_list;
  usb_write = λ bytes pipe. (true, pipe ++ bytes);
}

read_list-length :
    (n : ℕ) (pipe bytes : List ℕ) → (read_list n pipe).0 ≡ some bytes → length bytes ≡ n
read_list-length n pipe bytes e = elim (Bool-cases (ltb (length pipe) n)) [
  | inl short ↦ let never : none ≡ some bytes = rw short at e in cc
  | inr long ↦
      let got : some (take n pipe) ≡ some bytes = rw long at e in
      let same : take n pipe ≡ bytes = cc in
      ap length (sym same) ∙ ground (arith, length-take n pipe)
]

list_usb-IsExact : IsExact list_usb
list_usb-IsExact = record { read_length = read_list-length }

read_list-taken :
    (bytes rest pipe : List ℕ)
    → pipe ≡ bytes ++ rest
    → ((read_list (length bytes) pipe).0 ≡ some bytes) × ((read_list (length bytes) pipe).1 ≡ rest)
read_list-taken bytes rest pipe e =
    let long : ltb (length (bytes ++ rest)) (length bytes) ≡ false =
      ground (arith, length-append bytes rest) in
    rw (e, long) (ap some (take-length-append bytes rest), drop-length-append bytes rest)

-- A device whose calls take all that is written, and read 16 bytes at most at a time; a handle that
-- is NULL is invalid.
abbrev list_write : Option ℕ → List ℕ → List ℕ × List ℕ → (Bool × ℕ × Bool) × (List ℕ × List ℕ)
list_write none bytes d = ((false, 0, true), d)
list_write (some h) bytes d = ((true, length bytes, false), (d.0 ++ bytes, d.1))

abbrev list_read : Option ℕ → ℕ → List ℕ × List ℕ → (Bool × List ℕ × Bool) × (List ℕ × List ℕ)
list_read none n d = ((false, [], true), d)
list_read (some h) n d =
    let k = if ltb 16 n then 16 else n in ((true, take k d.1, false), (d.0, drop k d.1))

abbrev two_lists : AdbWinApi
two_lists = record {
  Device = List ℕ × List ℕ;
  write_endpoint = list_write;
  read_endpoint = list_read;
  close_handle = λ h d. d;
}

abbrev list_incoming : Option ℕ → List ℕ × List ℕ → List ℕ
list_incoming none d = []
list_incoming (some h) d = d.1

list_sends :
    (h : Option ℕ) (bytes : List ℕ) (d : List ℕ × List ℕ)
    → (list_write h bytes d).1.0 ≡ d.0 ++ take (list_write h bytes d).0.1 bytes
list_sends none bytes d = sym (append-nil d.0)
list_sends (some h) bytes d = ap (λ l. d.0 ++ l) (sym (take_all bytes))

list_gives :
    (h : Option ℕ) (n : ℕ) (d : List ℕ × List ℕ)
    → 1 ≤ n
    → 1 ≤ length (list_incoming h d)
    → (k : ℕ) × (1 ≤ k)
      × (k ≤ n)
      × (k ≤ length (list_incoming h d))
      × ((list_read h n d).0.0 ≡ true)
      × ((list_read h n d).0.1 ≡ take k (list_incoming h d))
      × (list_incoming h (list_read h n d).1 ≡ drop k (list_incoming h d))
list_gives none n d some_asked there = absurd (omega arith)
list_gives (some h) n d some_asked there =
    let k = if ltb 16 n then 16 else n in
    let small : k ≤ n = ground arith in
    let asked : 1 ≤ k = ground (arith, some_asked) in
    elim (Bool-cases (ltb (length d.1) k)) [
      | inr room ↦ (k, asked, small, ground arith, refl, refl, refl)
      | inl short ↦
          let below : length d.1 ≤ k = ground arith in
          (
            length d.1,
            there,
            omega (arith, small, below),
            omega arith,
            refl,
            take_over k d.1 below ∙ sym (take_all d.1),
            drop_over k d.1 below ∙ sym (drop_over (length d.1) d.1 (omega arith)),
          )
    ]
  where
    take_over : (m : ℕ) (l : List ℕ) → length l ≤ m → take m l ≡ l
    take_over m [] below = take-nil m
    take_over zero (b ∷ l) below = absurd (omega arith)
    take_over (suc m) (b ∷ l) below = ap (◌∷◌ b) (take_over m l (omega (arith, below)))

    drop_over : (m : ℕ) (l : List ℕ) → length l ≤ m → drop m l ≡ []
    drop_over m [] below = drop-nil m
    drop_over zero (b ∷ l) below = absurd (omega arith)
    drop_over (suc m) (b ∷ l) below = drop_over m l (omega (arith, below))

abbrev two_lists-ArePipes : ArePipes two_lists
two_lists-ArePipes = record {
  written = λ h d. d.0;
  incoming = list_incoming;
  sends = list_sends;
  gives = list_gives;
}

-- An open device with packets of 64 bytes.
abbrev opened : List ℕ → List ℕ → Opened two_lists
opened out incoming = record {
  handle = record {
    adb_interface = some 1;
    adb_read_pipe = some 2;
    adb_write_pipe = some 3;
    interface_name = none;
    zero_mask = 63;
  };
  device = (out, incoming);
}

abbrev two_usb : Usb
two_usb = windows_usb two_lists

-- Twenty bytes, in a call that gives 16 and one that gives 4.
abbrev twenty : List ℕ
twenty =
    1 ∷ 2 ∷ 3 ∷ 4 ∷ 5 ∷ 6 ∷ 7 ∷ 8 ∷ 9 ∷ 10 ∷ 11 ∷ 12 ∷ 13 ∷ 14 ∷ 15 ∷ 16 ∷ 17 ∷ 18 ∷ 19 ∷ 20 ∷ []

usb_read-coming_in_example :
    ((usb_read two_lists 20 (opened [] (twenty ++ 7 ∷ []))).0 ≡ some twenty)
    × (coming_in two_lists two_lists-ArePipes
          (usb_read two_lists 20 (opened [] (twenty ++ 7 ∷ []))).1
        ≡ 7 ∷ [])
usb_read-coming_in_example =
    usb_read-coming_in two_lists two_lists-ArePipes twenty (7 ∷ []) (opened [] (twenty ++ 7 ∷ []))
      (omega arith) refl

-- Three bytes are no header.
remote_usb_read-IsSafe_example :
    IsSafe two_usb
      (windows_usb-IsExact two_lists)
      (remote_usb_read two_usb true (some greeting) (opened [] (1 ∷ 2 ∷ 3 ∷ [])))
remote_usb_read-IsSafe_example =
    remote_usb_read-IsSafe two_usb (windows_usb-IsExact two_lists) greeting
      (opened [] (1 ∷ 2 ∷ 3 ∷ [])) greeting_size

abbrev wire_bytes : List ℕ
wire_bytes = message_bytes sealed.msg ++ b'h' ∷ b'i' ∷ b'!' ∷ []

sealed-IsWords : IsWords sealed.msg
sealed-IsWords = record {
  command_fits = omega arith;
  arg0_fits = omega arith;
  arg1_fits = omega arith;
  length_fits = omega arith;
  check_fits = omega arith;
  magic_fits = omega arith;
}

sealed_written :
    remote_usb_write two_usb true (some sealed) (opened [] []) ≡ (success, opened wire_bytes [])
unfolding remote_usb_write usb_write
sealed_written = refl

-- The byte 7 comes behind it.
remote_usb_write-read_example :
    IsCopy two_usb
      (windows_usb-IsStream two_lists two_lists-ArePipes)
      sealed
      (7 ∷ [])
      (remote_usb_read two_usb true (some greeting) (opened [] (wire_bytes ++ 7 ∷ [])))
unfolding windows_usb-IsStream
remote_usb_write-read_example =
    remote_usb_write-read two_usb (windows_usb-IsStream two_lists two_lists-ArePipes) sealed
      greeting (7 ∷ []) (opened [] []) (opened wire_bytes []) (opened [] (wire_bytes ++ 7 ∷ []))
      sealed-IsWords greeting_size greeting_size sealed_header sealed_accepted refl sealed_written
      refl
