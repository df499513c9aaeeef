-- ===== src/Sync/Requests.antt =====
-- The requests of the file client: sync_quit, sync_ls, the calls for the time and mode of a remote
-- file, and the frames in which data are sent.
use adb_server_project.Common.{
  ℕ, zero, suc, ◌-◌, ◌||◌, List, ◌++◌, Option, none, some, if◌then◌else◌, ◌==◌, ltb, drop, take,
  length,
}
use adb_server_project.Common.Exec.{Exec, pure}
use adb_server_project.Common.Int.{ℤ}
use adb_server_project.Packet.{Status, failure}
use adb_server_project.Sync.{
  SyncChannel, id_stat, id_list, id_dent, id_done, id_data, id_quit, sync_data_max, two_words, ok,
  minus_one, attempt, attempt_read, with_word, is_negative, above_int,
}
use adb_server_project.Sync.Files.{Files, AdbFile, s_rdonly, adb_file_open, adb_file_read}

-- The used part of a syncsendbuf.
abbrev pub data_frame : List ℕ → List ℕ
data_frame piece = two_words id_data (length piece) ++ piece

module _ (S : Type 0) (C : SyncChannel S) where
  -- `while (a->biptype != bipbuffer_close)` of sync_quit, which ends where the transport is kicked.
  unfoldable pub wait_closed : ℕ → S → Option S
  wait_closed zero s = if C.is_closed s then some s else none
  wait_closed (suc n) s =
      let rest = wait_closed n (C.pause s) in
      if C.is_closed s then some s else (if C.is_kicked s then some (C.set_offline s) else rest)

  unfoldable pub sync_quit : ℕ → S → Option S
  unfolding wait_closed
  sync_quit fuel s =
      if C.is_file_sync s
      then elim (C.write (two_words id_quit 0) s) [
        | none ↦ none
        | some (_, s') ↦ wait_closed fuel s'
      ]
      else some s

  -- The header of a request and, where it could be written, the path.
  unfoldable pub request : ℕ → List ℕ → Exec S Status
  request id path = attempt (C.write (two_words id (length path))) (pure failure) (C.write path)

  -- The `fail:` of the requests.
  unfoldable pub give_up : Exec S ℤ
  give_up s = elim (C.disconnect s) [ none ↦ none | some (_, s') ↦ some (minus_one, s') ]

  -- The body of the loop of sync_ls behind the read of an entry; `next` is the next turn.
  unfoldable pub handle_dent : Exec S ℤ → List ℕ → Exec S ℤ
  unfolding give_up
  handle_dent next bytes = with_word 0 bytes (λ id.
      if id == id_done
      then pure ok
      else (if id == id_dent
          then with_word 16 bytes (λ len.
            if above_int len 256 || is_negative len
            then give_up
            else attempt_read (C.read len 0) give_up (λ name. next))
          else give_up))

  -- The fuel is a number of entries that the device may send.
  unfoldable pub read_listing : ℕ → Exec S ℤ
  unfolding give_up handle_dent
  read_listing zero s = none
  read_listing (suc n) s = attempt_read (C.read 20 0) give_up (handle_dent (read_listing n)) s

  -- What it is given for the entries, `cookie`, it does not use.
  unfoldable pub sync_ls : {A : Type 0} → ℕ → List ℕ → A → Exec S ℤ
  unfolding request give_up read_listing
  sync_ls fuel path cookie =
      if ltb 1024 (length path)
      then give_up
      else attempt (request id_list path) give_up (read_listing fuel)

  -- The answer to ID_STAT, with the time, the mode and the size.
  unfoldable pub sync_finish_readtime : Exec S (ℤ × ℕ × ℕ × ℕ)
  sync_finish_readtime = attempt_read (C.read 16 0) (pure (minus_one, 0, 0, 0)) (λ bytes.
      with_word 0 bytes (λ id.
        if id == id_stat
        then with_word 12 bytes (λ time.
          with_word 4 bytes (λ mode. with_word 8 bytes (λ size. pure (ok, time, mode, size))))
        else pure (minus_one, 0, 0, 0)))

  unfoldable pub sync_start_readtime : List ℕ → Exec S ℤ
  unfolding request
  sync_start_readtime path = attempt (request id_stat path) (pure minus_one) (pure ok)

  unfoldable pub sync_readtime : List ℕ → Exec S (ℤ × ℕ)
  unfolding request
  sync_readtime path = attempt (request id_stat path) (pure (minus_one, 0)) (
      attempt_read (C.read 16 0) (pure (minus_one, 0)) (λ bytes. with_word 0 bytes (λ id.
        if id == id_stat
        then with_word 12 bytes (λ time. pure (ok, time))
        else pure (minus_one, 0))))

  unfoldable pub sync_readmode : List ℕ → Exec S (ℤ × ℕ)
  unfolding request
  sync_readmode path = attempt (request id_stat path) (pure (minus_one, 0)) (
      attempt_read (C.read 16 0) (pure (minus_one, 0)) (λ bytes. with_word 0 bytes (λ id.
        if id == id_stat
        then with_word 4 bytes (λ mode. pure (ok, mode))
        else pure (minus_one, 0))))

  -- The loop of write_data_buffer over the `rest` bytes that are left; a copy from behind the buffer
  -- is a fault.
  unfoldable pub write_pieces : ℕ → List ℕ → ℕ → Exec S ℤ
  write_pieces zero buffer rest s = if rest == 0 then some (ok, s) else none
  write_pieces (suc n) buffer rest s =
      if rest == 0
      then some (ok, s)
      else (let count = if ltb sync_data_max rest then sync_data_max else rest in
          if ltb (length buffer) count
          then none
          else attempt (C.write (data_frame (take count buffer))) (pure minus_one)
              (write_pieces n (drop count buffer) (rest - count)) s)

  -- `size` is an `int`.
  unfoldable pub write_data_buffer : List ℕ → ℕ → Exec S ℤ
  unfolding write_pieces
  write_data_buffer file_buffer size =
      if is_negative size then pure ok else write_pieces size file_buffer size

  -- The loop of write_data_file; a stream never gives a negative count, so the branch for one is dead.
  unfoldable pub write_file_pieces : ℕ → Option AdbFile → Exec S ℤ
  unfolding adb_file_read
  write_file_pieces zero lfd s = none
  write_file_pieces (suc n) lfd s =
      let (piece, lfd') = adb_file_read lfd sync_data_max in
      if length piece == 0
      then some (ok, s)
      else attempt (C.write (data_frame piece)) (pure minus_one) (write_file_pieces n lfd') s

  unfoldable pub write_data_file : List ℕ → Files → Exec S ℤ
  unfolding adb_file_open write_file_pieces
  write_data_file path d = elim (adb_file_open path s_rdonly d).0 [
    | none ↦ pure minus_one
    | some f ↦ write_file_pieces (suc (length f.bytes)) (some f)
  ]
