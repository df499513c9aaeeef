-- ===== src/Remote/Windows.antt =====
-- usb_write, usb_read and usb_kick on an open handle (usb_windows.cpp). The calls of AdbWinApi are a
-- parameter.
use adb_server_project.Common.{
  ℕ, zero, suc, ◌-◌, ◌≤◌, ◌≡◌, refl, sym, ap, ◌∙◌, inl, inr, Bool, true, false, ◌&&◌, not, List, [],
  ◌∷◌, ◌++◌, Option, none, some, if◌then◌else◌, ◌==◌, ltb, take, drop, length, arith, Bool-cases,
  length-append, length-take, length-drop, take-length-append, drop-length-append, append-nil,
  take_split, drop-drop, take-nil,
}
use Prim.Native.Nat.{bit_and}
use adb_server_project.Remote.{Usb}
use adb_server_project.Remote.Safe.{IsExact}
use adb_server_project.Remote.Roundtrip.{IsStream}

-- What AdbWriteEndpointSync and AdbReadEndpointSync return: whether the call succeeded, its count or
-- its bytes, and whether the last error is ERROR_INVALID_HANDLE. A handle that is NULL is none.
pub record AdbWinApi : Type 1 where
  pub Device : Type 0
  pub write_endpoint : Option ℕ → List ℕ → Device → (Bool × ℕ × Bool) × Device
  pub read_endpoint : Option ℕ → ℕ → Device → (Bool × List ℕ × Bool) × Device
  pub close_handle : ℕ → Device → Device

pub record UsbHandle : Type 0 where
  pub adb_interface : Option ℕ
  pub adb_read_pipe : Option ℕ
  pub adb_write_pipe : Option ℕ
  pub interface_name : Option (List ℕ)
  pub zero_mask : ℕ

module _ (A : AdbWinApi) where
  pub record Opened : Type 0 where
    pub handle : UsbHandle
    pub device : A.Device

  abbrev close_some : Option ℕ → A.Device → A.Device
  close_some none d = d
  close_some (some h) d = A.close_handle h d

  unfoldable pub usb_cleanup_handle : Bool → Opened → Opened
  usb_cleanup_handle only_offline o =
      let h = o.handle in
      record {
        handle = record {
          adb_interface = none;
          adb_read_pipe = none;
          adb_write_pipe = none;
          interface_name = if only_offline then h.interface_name else none;
          zero_mask = h.zero_mask;
        };
        device =
            close_some h.adb_interface
              (close_some h.adb_read_pipe (close_some h.adb_write_pipe o.device));
      }

  unfoldable pub usb_kick : Opened → Opened
  unfolding usb_cleanup_handle
  usb_kick o = usb_cleanup_handle true o

  -- An invalid handle is taken for a device that is gone.
  abbrev kick_if : Bool → Opened → Opened
  kick_if invalid o = if invalid then usb_kick o else o

  -- The zero length packet behind bytes that fill the device's packets; its result is not looked at.
  abbrev zero_packet : ℕ → Opened → Opened
  zero_packet len o =
      if not (o.handle.zero_mask == 0) && (bit_and len o.handle.zero_mask == 0)
      then record o { device = (A.write_endpoint o.handle.adb_write_pipe [] o.device).1 }
      else o

  unfoldable pub usb_write : List ℕ → Opened → Bool × Opened
  unfolding usb_kick
  usb_write bytes o =
      let r = A.write_endpoint o.handle.adb_write_pipe bytes o.device in
      let o' = record o { device = r.1 } in
      if r.0.0
      then (if r.0.1 == length bytes then (true, zero_packet (length bytes) o') else (false, o'))
      else (false, kick_if r.0.2 o')

  -- The loop of usb_read over what is left. A read of more than was asked for makes `len` negative.
  -- A read that gives no byte leaves the loop as it was, and the fuel ends such a loop; the source
  -- goes on with it.
  unfoldable pub usb_read_loop : ℕ → ℕ → Opened → Option (List ℕ) × Opened
  unfolding usb_kick
  usb_read_loop zero len o = (none, o)
  usb_read_loop (suc fuel) len o =
      let xfer = if ltb 4096 len then 4096 else len in
      let r = A.read_endpoint o.handle.adb_read_pipe xfer o.device in
      let o' = record o { device = r.1 } in
      let rest = usb_read_loop fuel (len - length r.0.1) o' in
      if not r.0.0
      then (none, kick_if r.0.2 o')
      else (if len == length r.0.1
          then (some r.0.1, o')
          else (if ltb len (length r.0.1)
              then (none, o')
              else (elim rest.0 [ none ↦ none | some more ↦ some (r.0.1 ++ more) ], rest.1)))

  -- Without a byte to read the loop is not entered, and the call fails.
  unfoldable pub usb_read : ℕ → Opened → Option (List ℕ) × Opened
  unfolding usb_read_loop
  usb_read len o = if len == 0 then (none, o) else usb_read_loop len len o

  -- The device of a transport.
  abbrev pub windows_usb : Usb
  windows_usb = record { Pipe = Opened; usb_read = usb_read; usb_write = usb_write }

module _ (A : AdbWinApi) where
  usb_read_loop-length :
      (fuel len : ℕ) (o : Opened A) (bytes : List ℕ)
      → (usb_read_loop A fuel len o).0 ≡ some bytes
      → length bytes ≡ len
  unfolding usb_read_loop
  usb_read_loop-length zero len o bytes e = let never : none ≡ some bytes = e in cc
  usb_read_loop-length (suc fuel) len o bytes e =
      let xfer = if ltb 4096 len then 4096 else len in
      let r = A.read_endpoint o.handle.adb_read_pipe xfer o.device in
      let o' = record o { device = r.1 } in
      let rest = usb_read_loop A fuel (len - length r.0.1) o' in
      elim (Bool-cases r.0.0) [
        | inr lost ↦ let never : none ≡ some bytes = rw lost at e in cc
        | inl ok ↦ elim (Bool-cases (len == length r.0.1)) [
          | inl whole ↦
              let got : some r.0.1 ≡ some bytes = rw (ok, whole) at e in
              let same : r.0.1 ≡ bytes = cc in ap length (sym same) ∙ ground arith
          | inr part ↦ elim (Bool-cases (ltb len (length r.0.1))) [
            | inl over ↦ let never : none ≡ some bytes = rw (ok, part, over) at e in cc
            | inr within ↦
                let joined = rw (ok, part, within) at e in
                joined_length r.0.1 bytes rest.0 (ground arith) joined
                  (λ more h. usb_read_loop-length fuel (len - length r.0.1) o' more h)
          ]
        ]
      ]
    where
      joined_length :
          (got bytes : List ℕ) (rest : Option (List ℕ))
          → length got ≤ len
          → elim rest [ none ↦ none | some more ↦ some (got ++ more) ] ≡ some bytes
          → ((more : List ℕ) → rest ≡ some more → length more ≡ len - length got)
          → length bytes ≡ len
      joined_length got bytes none fits e h = let never : none ≡ some bytes = e in cc
      joined_length got bytes (some more) fits e h =
          let both : some (got ++ more) ≡ some bytes = e in
          let same : got ++ more ≡ bytes = cc in
          ap length (sym same) ∙ omega (arith, length-append got more, h more refl, fits)

  pub windows_usb-IsExact : IsExact (windows_usb A)
  unfolding usb_read
  windows_usb-IsExact = record { read_length = whole }
    where
      whole :
          (n : ℕ) (o : Opened A) (bytes : List ℕ)
          → (usb_read A n o).0 ≡ some bytes
          → length bytes ≡ n
      whole n o bytes e = elim (Bool-cases (n == 0)) [
        | inl z ↦ let never : none ≡ some bytes = rw z at e in cc
        | inr more ↦ usb_read_loop-length n n o bytes (rw more at e)
      ]

-- What the calls do for a device at work: what a write reports as written has gone out, and where
-- something comes in, a read succeeds and takes one byte at least.
pub record ArePipes (A : AdbWinApi) : Type 0 where
  pub written : Option ℕ → A.Device → List ℕ
  pub incoming : Option ℕ → A.Device → List ℕ
  pub sends :
      (h : Option ℕ) (bytes : List ℕ) (d : A.Device)
      → written h (A.write_endpoint h bytes d).1
        ≡ written h d ++ take (A.write_endpoint h bytes d).0.1 bytes
  pub gives :
      (h : Option ℕ) (n : ℕ) (d : A.Device)
      → 1 ≤ n
      → 1 ≤ length (incoming h d)
      → (k : ℕ) × (1 ≤ k)
        × (k ≤ n)
        × (k ≤ length (incoming h d))
        × ((A.read_endpoint h n d).0.0 ≡ true)
        × ((A.read_endpoint h n d).0.1 ≡ take k (incoming h d))
        × (incoming h (A.read_endpoint h n d).1 ≡ drop k (incoming h d))

pub take_all : (bytes : List ℕ) → take (length bytes) bytes ≡ bytes
take_all [] = refl
take_all (b ∷ bytes) = ap (◌∷◌ b) (take_all bytes)

module _ (A : AdbWinApi) (pipes : ArePipes A) where
  abbrev pub gone_out : Opened A → List ℕ
  gone_out o = pipes.written o.handle.adb_write_pipe o.device

  abbrev pub coming_in : Opened A → List ℕ
  coming_in o = pipes.incoming o.handle.adb_read_pipe o.device

  zero_packet-gone_out : (len : ℕ) (o : Opened A) → gone_out (zero_packet A len o) ≡ gone_out o
  zero_packet-gone_out len o =
      elim (Bool-cases (not (o.handle.zero_mask == 0) && (bit_and len o.handle.zero_mask == 0))) [
        | inl fills ↦ rw fills (
            pipes.sends o.handle.adb_write_pipe [] o.device
            ∙ ap (λ l. gone_out o ++ l)
                (take-nil (A.write_endpoint o.handle.adb_write_pipe [] o.device).0.1)
            ∙ append-nil (gone_out o))
        | inr other ↦ rw other refl
      ]

  pub usb_write-gone_out :
      (bytes : List ℕ) (o : Opened A)
      → (usb_write A bytes o).0 ≡ true
      → gone_out (usb_write A bytes o).1 ≡ gone_out o ++ bytes
  unfolding usb_write
  usb_write-gone_out bytes o e =
      let r = A.write_endpoint o.handle.adb_write_pipe bytes o.device in
      elim (Bool-cases r.0.0) [
        | inr lost ↦ let never : false ≡ true = rw lost at e in cc
        | inl ok ↦ elim (Bool-cases (r.0.1 == length bytes)) [
          | inr short ↦ let never : false ≡ true = rw (ok, short) at e in cc
          | inl whole ↦
              let n : r.0.1 ≡ length bytes = ground arith in
              rw (ok, whole)
                (zero_packet-gone_out (length bytes) (record o { device = r.1 })
                  ∙ pipes.sends o.handle.adb_write_pipe bytes o.device
                  ∙ ap (λ k. gone_out o ++ take k bytes) n
                  ∙ ap (λ l. gone_out o ++ l) (take_all bytes))
        ]
      ]

  usb_read_loop-coming_in :
      (fuel len : ℕ) (o : Opened A)
      → len ≤ fuel
      → 1 ≤ len
      → len ≤ length (coming_in o)
      → ((usb_read_loop A fuel len o).0 ≡ some (take len (coming_in o)))
        × (coming_in (usb_read_loop A fuel len o).1 ≡ drop len (coming_in o))
  unfolding usb_read_loop
  usb_read_loop-coming_in zero len o f some_asked room = absurd (omega arith)
  usb_read_loop-coming_in (suc fuel) len o f some_asked room =
      let xfer = if ltb 4096 len then 4096 else len in
      let small : xfer ≤ len = ground arith in
      let asked : 1 ≤ xfer = ground (arith, some_asked) in
      let r = A.read_endpoint o.handle.adb_read_pipe xfer o.device in
      let c = coming_in o in
      let o' = record o { device = r.1 } in
      let (k, one, fits, there, ok, got, left) =
        pipes.gives o.handle.adb_read_pipe xfer o.device asked (omega (arith, some_asked, room)) in
      let size : length r.0.1 ≡ k = ap length got ∙ omega (arith, length-take k c, there) in
      elim (Bool-cases (len == k)) [
        | inl whole ↦
            let same : len ≡ k = ground arith in
            rw (ok, size, whole)
              (
                ap some got ∙ ap (λ n. some (take n c)) (sym same),
                left ∙ ap (λ n. drop n c) (sym same),
              )
        | inr part ↦
            let within : ltb len k ≡ false = ground (arith, fits, small) in
            let more : 1 ≤ len - k = ground (arith, fits, small) in
            let (run, behind) =
              usb_read_loop-coming_in fuel (len - k) o' (omega arith) more
                (omega (arith, ap length left, length-drop k c, room)) in
            rw (ok, size, part, within, run)
              (
                ap (λ l. some (l ++ take (len - k) (coming_in o'))) got
                    ∙ ap (λ l. some (take k c ++ take (len - k) l)) left
                    ∙ ap some (take_split k len c (omega arith)),
                behind
                    ∙ ap (drop (len - k)) left
                    ∙ drop-drop k (len - k) c
                    ∙ ap (λ n. drop n c) (omega arith),
              )
      ]

  -- Asked for a positive number of bytes that are there, usb_read gives exactly the first ones, over as
  -- many calls of AdbReadEndpointSync as it takes, and leaves those behind them, where such a call that
  -- finds bytes succeeds with one at least.
  pub usb_read-coming_in :
      (bytes rest : List ℕ) (o : Opened A)
      → 1 ≤ length bytes
      → coming_in o ≡ bytes ++ rest
      → ((usb_read A (length bytes) o).0 ≡ some bytes)
        × (coming_in (usb_read A (length bytes) o).1 ≡ rest)
  unfolding usb_read
  usb_read-coming_in bytes rest o some_asked e =
      let asked : (length bytes == 0) ≡ false = ground (arith, some_asked) in
      let n = length bytes in
      let (run, left) =
        usb_read_loop-coming_in n n o (omega arith) some_asked
          (omega (arith, ap length e, length-append bytes rest)) in
      rw asked (
        run ∙ ap (λ l. some (take n l)) e ∙ ap some (take-length-append bytes rest),
        left ∙ ap (drop n) e ∙ drop-length-append bytes rest,
      )

  unfoldable pub windows_usb-IsStream : IsStream (windows_usb A)
  windows_usb-IsStream = record {
    outgoing = gone_out;
    contents = coming_in;
    written = usb_write-gone_out;
    taken = usb_read-coming_in;
  }
