-- ===== src/Sync/Receive.antt =====
-- sync_recv and sync_recv_buffer: a remote file is read into a local file or into a buffer.
use adb_server_project.Common.{
  ℕ, zero, suc, ◌+◌, ◌%◌, ◌^◌, ◌||◌, not, List, ◌++◌, Option, none, some, if◌then◌else◌, ◌==◌, ltb,
  length,
}
use adb_server_project.Common.Exec.{Exec, pure}
use adb_server_project.Common.Int.{ℤ}
use adb_server_project.Sync.{
  attempt_append, SyncChannel, id_recv, id_done, id_data, id_fail, sync_data_max, ok, minus_one,
  attempt, attempt_read, with_word, above_int, is_negative,
}
use adb_server_project.Sync.Files.{
  Files, AdbFile, s_wnronly, adb_file_creat, fstream_write, adb_unlink,
}
use adb_server_project.Sync.Requests.{request}

module _ (S : Type 0) (C : SyncChannel S) where
  -- The rest of `remote_error:` behind the removal of the file: a message is read, and the result is 0.
  unfoldable pub remote_error : ℕ → ℕ → Exec S ℤ
  remote_error id size =
      if id == id_fail
      then (if is_negative size
          then pure minus_one
          else (let len = if above_int size 256 then 256 else size in
              attempt_read (C.read len 0) (pure minus_one) (λ text. pure ok)))
      else pure ok

  -- A negative length passes the test for an overrun; the read of it gives nothing and fails.
  -- The loop of sync_recv_buffer from `handle_data:` on, with the header that was read last. The
  -- result, the buffer, and `total` where it was stored into `_len`.
  unfoldable pub recv_pieces : ℕ → ℕ → ℕ → List ℕ → ℕ → Exec S (ℤ × List ℕ × Option ℕ)
  unfolding remote_error
  recv_pieces zero id size buffer total s = none
  recv_pieces (suc n) id size buffer total s =
      if id == id_done
      then some ((ok, buffer, some total), s)
      else (if id == id_data
          then (if above_int size sync_data_max || is_negative size
              then some ((minus_one, buffer, none), s)
              else attempt_append (C.read_to_buffer size)
                  (λ piece. pure (minus_one, buffer ++ piece, none))
                  (λ piece.
                    attempt_read (C.read 8 0) (pure (minus_one, buffer ++ piece, none)) (λ head.
                      with_word 0 head (λ id'. with_word 4 head (λ size'.
                        recv_pieces n id' size' (buffer ++ piece) ((total + size) % 2 ^ 32)))))
                  s)
          else elim (remote_error id size s) [
            | none ↦ none
            | some (r, s') ↦ some ((r, buffer, none), s')
          ])

  unfoldable pub sync_recv_buffer : ℕ → List ℕ → List ℕ → Exec S (ℤ × List ℕ × Option ℕ)
  unfolding request recv_pieces
  sync_recv_buffer fuel buffer rpath =
      if ltb 1024 (length rpath)
      then pure (minus_one, buffer, none)
      else attempt (request S C id_recv rpath) (pure (minus_one, buffer, none)) (
          attempt_read (C.read 8 0) (pure (minus_one, buffer, none)) (λ head.
            with_word 0 head (λ id. with_word 4 head (λ size. recv_pieces fuel id size buffer 0))))

  unfoldable pub refuse_file : ℕ → ℕ → List ℕ → Files → Exec S (ℤ × Files)
  unfolding remote_error adb_unlink
  refuse_file id size lpath d s = elim (remote_error id size s) [
    | none ↦ none
    | some (r, s') ↦ some ((r, adb_unlink lpath d), s')
  ]

  -- The loop of sync_recv: the pieces go to the local file. Where the next header cannot be read the
  -- stream is not closed.
  unfoldable pub recv_to_file : ℕ → ℕ → ℕ → AdbFile → Files → Exec S (ℤ × Files)
  unfolding refuse_file fstream_write
  recv_to_file zero id size f d s = none
  recv_to_file (suc n) id size f d s =
      if id == id_done
      then some ((ok, d), s)
      else (if id == id_data
          then (if above_int size sync_data_max || is_negative size
              then some ((minus_one, d), s)
              else attempt_read (C.read size 0) (pure (minus_one, d))
                  (λ piece.
                    let (good, f', d') = fstream_write f piece d in
                    if not good
                    then pure (minus_one, d')
                    else attempt_read (C.read 8 0) (pure (minus_one, d')) (λ head.
                      with_word 0 head
                        (λ id'. with_word 4 head (λ size'. recv_to_file n id' size' f' d'))))
                  s)
          else refuse_file id size f.path d s)

  -- What is done with the first header: the local file is opened for data.
  unfoldable pub start_file : ℕ → List ℕ → Files → ℕ → ℕ → Exec S (ℤ × Files)
  unfolding adb_file_creat recv_to_file refuse_file
  start_file fuel lpath d id size =
      if id == id_data || id == id_done
      then elim (adb_file_creat lpath s_wnronly d) [
        | none ↦ λ s. none
        | some (none, d') ↦ pure (minus_one, d')
        | some (some f, d') ↦ recv_to_file fuel id size f d'
      ]
      else refuse_file id size lpath d

  unfoldable pub sync_recv : ℕ → List ℕ → List ℕ → Files → Exec S (ℤ × Files)
  unfolding request start_file
  sync_recv fuel rpath lpath d =
      if ltb 1024 (length rpath)
      then pure (minus_one, d)
      else attempt (request S C id_recv rpath) (pure (minus_one, d)) (
          attempt_read (C.read 8 0) (pure (minus_one, d)) (λ head.
            with_word 0 head (λ id. with_word 4 head (λ size. start_file fuel lpath d id size))))
