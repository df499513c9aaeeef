-- ===== src/Sync/Answers.antt =====
-- sync_send_buffer on a channel that works: what goes out, and the two answers of the device.
use adb_server_project.Common.{
  ℕ, ◌+◌, ◌^◌, ◌≤◌, ◌<◌, ◌≡◌, refl, ap, ◌∙◌, false, List, [], ◌∷◌, ◌++◌, append_assoc, some,
  if◌then◌else◌, ltb, drop, take, length, arith, length-append, drop-length-append,
}
use adb_server_project.Common.Exec.{Exec, pure}
use adb_server_project.Common.Int.{ℤ}
use adb_server_project.Packet.{success, failure}
use adb_server_project.Zip.{read_le_int}
use adb_server_project.Zip.Layout.{le_int, read_le_int-le_int}
use adb_server_project.Sync.{
  SyncChannel, ok, minus_one, attempt, attempt_read, with_word, is_negative, above_int, two_words,
  id_send, id_done, id_okay, id_fail,
}
use adb_server_project.Sync.Requests.{give_up, write_data_buffer}
use adb_server_project.Sync.Send.{
  handle_status, read_status, finish_send, send_request, mode_text, ignoring, sync_send_buffer,
}
use adb_server_project.Sync.Digits.{IsDecimal, mode_text-IsDecimal}
use adb_server_project.Sync.Wire.{IsWire, attempt_success, attempt_read_success}
use adb_server_project.Sync.Frames.{join, frames, ArePieces, write_data_buffer-SendsFrames}

-- What the device answers to ID_DONE: ID_OKAY with any word, or ID_FAIL with a text.
pub data Answer : Type 0 where
  accepted : ℕ → Answer
  refused : List ℕ → Answer

abbrev pub answer_bytes : Answer → List ℕ → List ℕ
answer_bytes (accepted word) rest = two_words id_okay word ++ rest
answer_bytes (refused text) rest = two_words id_fail (length text) ++ (text ++ rest)

abbrev pub answer_result : Answer → ℤ
answer_result (accepted word) = ok
answer_result (refused text) = minus_one

abbrev pub IsShort : Answer → Type 0
IsShort (accepted word) = word < 2 ^ 32
IsShort (refused text) = length text ≤ 256

-- What goes out for a buffer that is sent in some pieces, with a text for the mode.
abbrev pub send_bytes : List ℕ → List ℕ → ℕ → List (List ℕ) → List ℕ
send_bytes rpath text mtime pieces =
    (two_words id_send (length rpath + length text) ++ (rpath ++ text))
    ++ (frames pieces ++ two_words id_done mtime)

small_length : (n : ℕ) → n ≤ 256 → is_negative n ≡ false
small_length n h = ground arith

whole_length : (n : ℕ) → n ≤ 256 → (if above_int n 256 then 256 else n) ≡ n
whole_length n h = ground arith

module _ (S : Type 0) (C : SyncChannel S) where
  okay_step :
      (word : ℕ) (bytes : List ℕ) (s : S)
      → read_le_int bytes ≡ some id_okay
      → handle_status S C bytes s ≡ some (ok, s)
  unfolding handle_status
  okay_step word bytes s e = rw (with_word, e) refl

  refused_step :
      (size : ℕ) (bytes : List ℕ) (s : S)
      → read_le_int bytes ≡ some id_fail
      → read_le_int (drop 4 bytes) ≡ some size
      → is_negative size ≡ false
      → (if above_int size 256 then 256 else size) ≡ size
      → handle_status S C bytes s
        ≡ attempt_read (C.read size 2) (pure minus_one) (λ x. pure minus_one) s
  unfolding handle_status
  refused_step size bytes s e l small whole = rw (with_word, e, l, whole, small) refl

module _ (S : Type 0) (C : SyncChannel S) (W : IsWire S C) where
  -- A message of two words is read.
  pub read_two_words :
      {A : Type 0} (a b : ℕ) (rest : List ℕ) (bad : Exec S A) (good : List ℕ → Exec S A) (s : S)
      → W.Ready s
      → W.incoming s ≡ two_words a b ++ rest
      → (s' : S) × (attempt_read (C.read 8 0) bad good s ≡ good (two_words a b) s')
        × W.Ready s'
        × (W.sent s' ≡ W.sent s)
        × (W.incoming s' ≡ rest)
  read_two_words a b rest bad good s r e =
      let room : 8 ≤ length (W.incoming s) = rw e (omega arith) in
      let (s', got, ready, sent, left) = W.reads 8 0 s r room in
      let head : take 8 (W.incoming s) ≡ two_words a b = rw e refl in
      (
        s',
        attempt_read_success (C.read 8 0) bad good s got ∙ ap (λ h. good h s') head,
        ready,
        sent,
        left ∙ rw e refl,
      )

  -- The text of a refusal is read and the result is -1.
  handle_status-refused :
      (text rest : List ℕ) (s : S)
      → W.Ready s
      → W.incoming s ≡ text ++ rest
      → length text ≤ 256
      → (s' : S) × (handle_status S C (two_words id_fail (length text)) s ≡ some (minus_one, s'))
        × (W.sent s' ≡ W.sent s)
        × (W.incoming s' ≡ rest)
  unfolding handle_status
  handle_status-refused text rest s r e short =
      let size = length text in
      let room : size ≤ length (W.incoming s) =
        omega (arith, ap length e, length-append text rest) in
      let (s', got, ready, sent, left) = W.reads size 2 s r room in
      let fail_word = read_le_int-le_int id_fail (le_int size) (omega arith) in
      let size_word = read_le_int-le_int size [] (omega (arith, short)) in
      (
        s',
        refused_step S C size (two_words id_fail size) s fail_word size_word
              (small_length size short) (whole_length size short)
            ∙ attempt_read_success (C.read size 2) (pure minus_one) (λ x. pure minus_one) s got,
        sent,
        left ∙ ap (drop size) e ∙ drop-length-append text rest,
      )

  read_status-Answer :
      (a : Answer) (rest : List ℕ) (s : S)
      → W.Ready s
      → W.incoming s ≡ answer_bytes a rest
      → IsShort a
      → (s' : S) × (read_status S C s ≡ some (answer_result a, s'))
        × (W.sent s' ≡ W.sent s)
        × (W.incoming s' ≡ rest)
  unfolding read_status
  read_status-Answer (accepted word) rest s r e short =
      let (s', got, ready, sent, left) =
        read_two_words id_okay word rest (pure minus_one) (handle_status S C) s r e in
      (
        s',
        got
            ∙ okay_step S C word (two_words id_okay word) s'
                (read_le_int-le_int id_okay (le_int word) (omega arith)),
        sent,
        left,
      )
  read_status-Answer (refused text) rest s r e short =
      let (s1, got, ready, sent, left) =
        read_two_words id_fail (length text) (text ++ rest) (pure minus_one) (handle_status S C) s r
          e in
      let (s2, done, sent2, left2) = handle_status-refused text rest s1 ready left short in
      (s2, got ∙ done, sent2 ∙ sent, left2)

  ignoring_step :
      (m k : Exec S ℤ) (s : S) {r : ℤ} {s' : S} → m s ≡ some (r, s') → ignoring S C m k s ≡ k s'
  ignoring_step m k s e = rw (ignoring, e) refl

  -- The request for the path and the mode.
  send_request_sent :
      (rpath : List ℕ) (mode : ℕ) (s : S)
      → W.Ready s
      → (s' : S) × (send_request S C rpath mode s ≡ some (success, s'))
        × W.Ready s'
        × (W.sent s'
            ≡ W.sent s
              ++ (two_words id_send (length rpath + length (mode_text mode))
                  ++ (rpath ++ mode_text mode)))
        × (W.incoming s' ≡ W.incoming s)
  unfolding send_request
  send_request_sent rpath mode s r =
      let text = mode_text mode in
      let head = two_words id_send (length rpath + length text) in
      let (s1, wrote1, r1, sent1, kept1) = W.writes head s r in
      let (s2, wrote2, r2, sent2, kept2) = W.writes rpath s1 r1 in
      let (s3, wrote3, r3, sent3, kept3) = W.writes text s2 r2 in
      let then_text = attempt (C.write rpath) (pure failure) (C.write text) in
      (
        s3,
        attempt_success (C.write head) (pure failure) then_text s wrote1
            ∙ attempt_success (C.write rpath) (pure failure) (C.write text) s1 wrote2
            ∙ wrote3,
        r3,
        sent3
            ∙ ap (λ x. x ++ text) (sent2 ∙ ap (λ x. x ++ rpath) sent1)
            ∙ append_assoc (W.sent s ++ head) rpath text
            ∙ append_assoc (W.sent s) head (rpath ++ text),
        kept3 ∙ kept2 ∙ kept1,
      )

  -- On a channel that works, for a buffer of less than 2 ^ 31 bytes, a remote path of at most 1,024
  -- and an answer ID_OKAY or ID_FAIL with a text of at most 256 bytes, sync_send_buffer sends the
  -- request for the path, a comma and the digits of the mode (less than 2 ^ 31), frames of 1 to 65,536
  -- bytes that together are the buffer, and ID_DONE; it returns 0 on ID_OKAY and -1 on ID_FAIL, and has read the whole answer.
  pub sync_send_buffer-Answer :
      (buffer rpath rest : List ℕ) (mtime mode : ℕ) (a : Answer) (s : S)
      → W.Ready s
      → length buffer < 2 ^ 31
      → mode < 2 ^ 31
      → length rpath ≤ 1024
      → W.incoming s ≡ answer_bytes a rest
      → IsShort a
      → (s' : S) × (pieces : List (List ℕ)) × (digits : List ℕ) × (sync_send_buffer S C
            (some buffer)
            (length buffer)
            rpath
            mtime
            mode
            s
          ≡ some (answer_result a, s'))
        × (join pieces ≡ buffer)
        × ArePieces pieces
        × IsDecimal mode digits
        × (W.sent s' ≡ W.sent s ++ send_bytes rpath (44 ∷ digits) mtime pieces)
        × (W.incoming s' ≡ rest)
  unfolding sync_send_buffer finish_send
  sync_send_buffer-Answer buffer rpath rest mtime mode a s r small small_mode short e given =
      let (digits, text, decimal) = mode_text-IsDecimal mode small_mode in
      let (s1, asked, r1, sent1, kept1) = send_request_sent rpath mode s r in
      let data_out = write_data_buffer-SendsFrames S C W buffer s1 r1 small in
      let (s3, wrote, r3, sent3, kept3) =
        W.writes (two_words id_done mtime) data_out.after data_out.ready in
      let (s4, answered, sent4, left) =
        read_status-Answer a rest s3 r3 (kept3 ∙ data_out.keeps ∙ kept1 ∙ e) given in
      let below : ltb 1024 (length rpath) ≡ false = ground (arith, short) in
      let finish = attempt (C.write (two_words id_done mtime)) (give_up S C) (read_status S C) in
      let send_data = ignoring S C (write_data_buffer S C buffer (length buffer)) finish in
      let out = frames data_out.pieces in
      let asking =
        two_words id_send (length rpath + length (mode_text mode)) ++ (rpath ++ mode_text mode) in
      (
        s4,
        data_out.pieces,
        digits,
        rw below (
            attempt_success (send_request S C rpath mode) (give_up S C) send_data s asked
            ∙ ignoring_step (write_data_buffer S C buffer (length buffer)) finish s1
                data_out.returns
            ∙ attempt_success (C.write (two_words id_done mtime)) (give_up S C) (read_status S C)
                data_out.after wrote
            ∙ answered),
        data_out.joined,
        data_out.fit,
        decimal,
        sent4
            ∙ sent3
            ∙ ap (λ x. x ++ two_words id_done mtime) (data_out.sends ∙ ap (λ x. x ++ out) sent1)
            ∙ append_assoc (W.sent s ++ asking) out (two_words id_done mtime)
            ∙ append_assoc (W.sent s) asking (out ++ two_words id_done mtime)
            ∙ ap (λ x. W.sent s ++ send_bytes rpath x mtime data_out.pieces) text,
        left,
      )
