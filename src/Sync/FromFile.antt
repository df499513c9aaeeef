-- ===== src/Sync/FromFile.antt =====
-- write_data_file sends what write_data_buffer sends for the file's bytes, on any channel.
use adb_server_project.Common.{
  ℕ, zero, suc, ◌+◌, ◌-◌, ◌^◌, ◌≤◌, ◌<◌, ◌≡◌, refl, sym, ap, fun_ext, ◌∙◌, inl, inr, false, List,
  [], ◌∷◌, some, if◌then◌else◌, ◌==◌, ltb, drop, take, length, arith, length-take, length-drop,
  drop-drop, Bool-cases,
}
use adb_server_project.Common.Exec.{pure}
use adb_server_project.Sync.{SyncChannel, sync_data_max, ok, minus_one, attempt, is_negative}
use adb_server_project.Sync.Files.{Files, AdbFile, adb_file_open, adb_file_read, fstream_open}
use adb_server_project.Sync.Requests.{
  write_pieces, write_data_buffer, write_file_pieces, write_data_file, data_frame,
}
use adb_server_project.Sync.Frames.{write_step, nothing_left}

pub take_all : (n : ℕ) (xs : List ℕ) → length xs ≤ n → take n xs ≡ xs
take_all zero [] h = refl
take_all (suc n) [] h = refl
take_all zero (x ∷ xs) h = absurd (omega arith)
take_all (suc n) (x ∷ xs) h = ap (◌∷◌ x) (take_all n xs (omega arith))

abbrev count_of : List ℕ → ℕ
count_of xs = if ltb sync_data_max (length xs) then sync_data_max else length xs

take_count : (xs : List ℕ) → take sync_data_max xs ≡ take (count_of xs) xs
take_count xs = elim (Bool-cases (ltb sync_data_max (length xs))) [
  | inl more ↦ rw more refl
  | inr fits ↦
      let small : length xs ≤ sync_data_max = ground arith in
      rw fits (take_all sync_data_max xs small ∙ sym (take_all (length xs) xs (omega arith)))
]

not_zero : (n : ℕ) → 0 < n → (n == 0) ≡ false
not_zero n h = ground arith

not_below : (n m : ℕ) → m ≤ n → ltb n m ≡ false
not_below n m h = ground arith

pub empty_of_length : (xs : List ℕ) → length xs ≡ 0 → xs ≡ []
empty_of_length [] e = refl
empty_of_length (x ∷ xs) e = absurd (omega arith)

module _ (S : Type 0) (C : SyncChannel S) where
  file_step :
      (n : ℕ) (f : AdbFile) (s : S)
      → (length (take sync_data_max (drop f.place f.bytes)) == 0) ≡ false
      → write_file_pieces S C (suc n) (some f) s
        ≡ attempt
            (C.write (data_frame (take sync_data_max (drop f.place f.bytes))))
            (pure minus_one)
            (write_file_pieces S C n (
              some (record f {
                place = f.place + length (take sync_data_max (drop f.place f.bytes));
              })))
            s
  unfolding write_file_pieces adb_file_read
  file_step n f s more = rw more refl

  file_end :
      (n : ℕ) (f : AdbFile) (s : S)
      → drop f.place f.bytes ≡ []
      → write_file_pieces S C (suc n) (some f) s ≡ some (ok, s)
  unfolding write_file_pieces adb_file_read
  file_end n f s e = rw e refl

  write_file_pieces-pieces :
      (n m : ℕ) (f : AdbFile) (s : S)
      → length (drop f.place f.bytes) < n
      → length (drop f.place f.bytes) ≤ m
      → write_file_pieces S C n (some f) s
        ≡ write_pieces S C m (drop f.place f.bytes) (length (drop f.place f.bytes)) s
  write_file_pieces-pieces zero m f s h k = absurd (omega arith)
  write_file_pieces-pieces (suc n) zero f s h k =
      let done : drop f.place f.bytes ≡ [] = empty_of_length (drop f.place f.bytes) (omega arith) in
      file_end n f s done ∙ rw done (sym (nothing_left S C zero s))
  write_file_pieces-pieces (suc n) (suc m) f s h k =
      let rest = drop f.place f.bytes in
      elim (Bool-cases (length rest == 0)) [
        | inl z ↦
            let done : rest ≡ [] = empty_of_length rest (ground arith) in
            file_end n f s done ∙ rw done (sym (nothing_left S C (suc m) s))
        | inr more ↦
            let count = count_of rest in
            let low : 0 < count = ground arith in
            let inside : count ≤ length rest = ground arith in
            let piece = take_count rest in
            let size : length (take sync_data_max rest) ≡ count =
              omega (arith, ap length piece, length-take count rest, inside) in
            let f' = record f { place = f.place + length (take sync_data_max rest) } in
            let next : drop f'.place f'.bytes ≡ drop count rest =
              sym (drop-drop f.place (length (take sync_data_max rest)) f.bytes)
              ∙ ap (λ k. drop k rest) size in
            let left : length (drop f'.place f'.bytes) ≡ length rest - count =
              ap length next ∙ length-drop count rest in
            let later : (s' : S)
                → write_file_pieces S C n (some f') s'
                  ≡ write_pieces S C m (drop count rest) (length rest - count) s' =
              λ s'.
                write_file_pieces-pieces n m f' s' (omega (arith, left, low))
                  (omega (arith, left, low))
                ∙ ap (λ xs. write_pieces S C m xs (length xs) s') next
                ∙ ap (λ k. write_pieces S C m (drop count rest) k s') (length-drop count rest) in
            file_step n f s (not_zero (length (take sync_data_max rest)) (omega (arith, size, low)))
            ∙ ap
                (λ k. attempt (C.write (data_frame (take sync_data_max rest))) (pure minus_one) k s)
                (fun_ext later)
            ∙ ap
                (λ p.
                  attempt (C.write (data_frame p)) (pure minus_one)
                    (write_pieces S C m (drop count rest) (length rest - count)) s)
                piece
            ∙ sym (
                write_step S C m rest (length rest) count s more refl
                  (not_below (length rest) count inside))
      ]

  -- Of a file that can be read and has less than 2 ^ 31 bytes, write_data_file sends on any channel
  -- exactly what write_data_buffer sends for the file's bytes, with the same result.
  pub write_data_file-buffer :
      (path bytes : List ℕ) (d : Files) (s : S)
      → d.content path ≡ some bytes
      → length bytes < 2 ^ 31
      → write_data_file S C path d s ≡ write_data_buffer S C bytes (length bytes) s
  unfolding write_data_file write_data_buffer adb_file_open fstream_open
  write_data_file-buffer path bytes d s e h =
      let small : is_negative (length bytes) ≡ false = ground arith in
      let f : AdbFile = record { path = path; bytes = bytes; place = 0 } in
      rw (small, e)
        (write_file_pieces-pieces (suc (length bytes)) (length bytes) f s (omega arith)
          (omega arith))
