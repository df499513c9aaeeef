-- ===== src/Sync/Roundtrip.antt =====
-- sync_recv_buffer on the frames that write_data_buffer sends.
use adb_server_project.Common.{
  ℕ, zero, suc, ◌+◌, ◌%◌, ◌^◌, ◌≤◌, ◌<◌, ◌≡◌, refl, sym, ap, ◌∙◌, false, ◌||◌, List, [], ◌∷◌, ◌++◌,
  append-nil, append_assoc, Option, none, some, ltb, drop, take, length, arith, length-append,
  take-length-append, drop-length-append,
}
use adb_server_project.Common.Exec.{Exec, pure}
use adb_server_project.Common.Int.{ℤ}
use adb_server_project.Packet.{success, failure}
use adb_server_project.Zip.Layout.{le_int, read_le_int-le_int}
use adb_server_project.Sync.{
  attempt_append, SyncChannel, sync_data_max, ok, minus_one, attempt_read, with_word, is_negative,
  above_int, two_words, id_data, id_done, id_recv,
}
use adb_server_project.Sync.Requests.{request, write_data_buffer}
use adb_server_project.Sync.Receive.{recv_pieces, sync_recv_buffer}
use adb_server_project.Sync.Wire.{
  attempt_append_success, IsWire, attempt_success, attempt_read_success,
}
use adb_server_project.Sync.Frames.{join, frames, ArePieces, write_data_buffer-SendsFrames}

-- The words of a header.
pub with_word_first :
    {S A : Type 0} (a b : ℕ) (f : ℕ → Exec S A) (s : S)
    → a < 2 ^ 32
    → with_word 0 (two_words a b) f s ≡ f a s
with_word_first a b f s h = rw (with_word, read_le_int-le_int a (le_int b) h) refl

pub with_word_second :
    {S A : Type 0} (a b : ℕ) (f : ℕ → Exec S A) (s : S)
    → b < 2 ^ 32
    → with_word 4 (two_words a b) f s ≡ f b s
with_word_second a b f s h = rw (with_word, read_le_int-le_int b [] h) refl

-- The bytes counted by the loop, as an `int`.
abbrev pub count_pieces : ℕ → List (List ℕ) → ℕ
count_pieces total [] = total
count_pieces total (p ∷ ps) = count_pieces ((total + length p) % 2 ^ 32) ps

count_pieces-join :
    (total : ℕ) (ps : List (List ℕ))
    → total < 2 ^ 32
    → count_pieces total ps ≡ (total + length (join ps)) % 2 ^ 32
count_pieces-join total [] h = omega arith
count_pieces-join total (p ∷ ps) h =
    let next = (total + length p) % 2 ^ 32 in
    let ih = count_pieces-join next ps (omega arith) in omega (arith, ih, length-append p (join ps))

fits_int :
    (size : ℕ) → size ≤ sync_data_max → (above_int size sync_data_max || is_negative size) ≡ false
fits_int size h = ground arith

module _ (S : Type 0) (C : SyncChannel S) (W : IsWire S C) where
  -- The loop from the place where it reads the next header.
  recv_next : ℕ → List ℕ → ℕ → Exec S (ℤ × List ℕ × Option ℕ)
  unfolding recv_pieces
  recv_next n buffer total = attempt_read (C.read 8 0) (pure (minus_one, buffer, none)) (λ head.
      with_word 0 head (λ id. with_word 4 head (λ size. recv_pieces S C n id size buffer total)))

  -- A header that stands in the channel is read.
  read_head :
      (n id size : ℕ) (buffer rest : List ℕ) (total : ℕ) (s : S)
      → W.Ready s
      → W.incoming s ≡ two_words id size ++ rest
      → id < 2 ^ 32
      → size < 2 ^ 32
      → (s' : S) × (recv_next n buffer total s ≡ recv_pieces S C n id size buffer total s')
        × W.Ready s'
        × (W.sent s' ≡ W.sent s)
        × (W.incoming s' ≡ rest)
  unfolding recv_next
  read_head n id size buffer rest total s r e hid hsize =
      let room : 8 ≤ length (W.incoming s) = rw e (omega arith) in
      let (s', got, ready, sent, left) = W.reads 8 0 s r room in
      let head : take 8 (W.incoming s) ≡ two_words id size = rw e refl in
      let then_pieces : List ℕ → Exec S (ℤ × List ℕ × Option ℕ) =
        λ h. with_word 0 h (λ i. with_word 4 h (λ z. recv_pieces S C n i z buffer total)) in
      (
        s',
        attempt_read_success (C.read 8 0) (pure (minus_one, buffer, none)) then_pieces s got
            ∙ ap (λ h. then_pieces h s') head
            ∙ with_word_first id size
                (λ i. with_word 4 (two_words id size) (λ z. recv_pieces S C n i z buffer total)) s'
                hid
            ∙ with_word_second id size (λ z. recv_pieces S C n id z buffer total) s' hsize,
        ready,
        sent,
        left ∙ rw e refl,
      )

  -- The branch for ID_DATA.
  recv_data_step :
      (n size total : ℕ) (buffer : List ℕ) (s : S)
      → (above_int size sync_data_max || is_negative size) ≡ false
      → recv_pieces S C (suc n) id_data size buffer total s
        ≡ attempt_append
            (C.read_to_buffer size)
            (λ piece. pure (minus_one, buffer ++ piece, none))
            (λ piece. recv_next n (buffer ++ piece) ((total + size) % 2 ^ 32))
            s
  unfolding recv_next recv_pieces
  recv_data_step n size total buffer s fits = rw fits refl

  -- One piece, with its header read.
  recv_piece :
      (n : ℕ) (piece buffer rest : List ℕ) (total : ℕ) (s : S)
      → W.Ready s
      → W.incoming s ≡ piece ++ rest
      → length piece ≤ sync_data_max
      → (s' : S) × (recv_pieces S C (suc n) id_data (length piece) buffer total s
          ≡ recv_next n (buffer ++ piece) ((total + length piece) % 2 ^ 32) s')
        × W.Ready s'
        × (W.sent s' ≡ W.sent s)
        × (W.incoming s' ≡ rest)
  recv_piece n piece buffer rest total s r e h =
      let size = length piece in
      let room : size ≤ length (W.incoming s) =
        omega (arith, ap length e, length-append piece rest) in
      let (s', got, ready, sent, left) = W.reads_to_buffer size s r room in
      let bytes : take size (W.incoming s) ≡ piece =
        ap (take size) e ∙ take-length-append piece rest in
      let fits : (above_int size sync_data_max || is_negative size) ≡ false = fits_int size h in
      let next : List ℕ → Exec S (ℤ × List ℕ × Option ℕ) =
        λ p. recv_next n (buffer ++ p) ((total + size) % 2 ^ 32) in
      (
        s',
        recv_data_step n size total buffer s fits
            ∙ attempt_append_success (C.read_to_buffer size)
                (λ p. pure (minus_one, buffer ++ p, none)) next s got
            ∙ ap (λ p. next p s') bytes,
        ready,
        sent,
        left ∙ ap (drop size) e ∙ drop-length-append piece rest,
      )

  -- A run of the loop that takes in all of the pieces.
  pub record Receives (bytes : List ℕ) (total : ℕ) (rest : List ℕ) (s : S)
      (run : Option ((ℤ × List ℕ × Option ℕ) × S)) : Type 0 where
    pub after : S
    pub returns : run ≡ some ((ok, bytes, some total), after)
    pub ready : W.Ready after
    pub keeps : W.sent after ≡ W.sent s
    pub leaves : W.incoming after ≡ rest

  recv_done :
      (n size : ℕ) (buffer : List ℕ) (total : ℕ) (s : S)
      → recv_pieces S C (suc n) id_done size buffer total s ≡ some ((ok, buffer, some total), s)
  unfolding recv_pieces
  recv_done n size buffer total s = refl

  recv_next-Receives :
      (ps : List (List ℕ)) (n time : ℕ) (buffer rest : List ℕ) (total : ℕ) (s : S)
      → W.Ready s
      → W.incoming s ≡ frames ps ++ (two_words id_done time ++ rest)
      → ArePieces ps
      → time < 2 ^ 32
      → length ps < n
      → Receives (buffer ++ join ps) (count_pieces total ps) rest s (recv_next n buffer total s)
  recv_next-Receives [] zero time buffer rest total s r e fit ht h = absurd (omega arith)
  recv_next-Receives [] (suc n) time buffer rest total s r e fit ht h =
      let (s', read, ready, sent, left) =
        read_head (suc n) id_done time buffer rest total s r e (omega arith) ht in
      record {
        after = s';
        returns =
            read
            ∙ recv_done n time buffer total s'
            ∙ ap (λ b. some ((ok, b, some total), s')) (sym (append-nil buffer));
        ready = ready;
        keeps = sent;
        leaves = left;
      }
  recv_next-Receives (p ∷ ps) zero time buffer rest total s r e fit ht h = absurd (omega arith)
  recv_next-Receives (p ∷ ps) (suc n) time buffer rest total s r e fit ht h =
      let stream = frames ps ++ (two_words id_done time ++ rest) in
      let framed : W.incoming s ≡ two_words id_data (length p) ++ (p ++ stream) =
        e
        ∙ ap (◌++◌ (two_words id_data (length p)))
            (append_assoc p (frames ps) (two_words id_done time ++ rest)) in
      let (s1, read, ready1, sent1, left1) =
        read_head (suc n) id_data (length p) buffer (p ++ stream) total s r framed (omega arith)
          (omega (arith, fit.0.1)) in
      let (s2, piece, ready2, sent2, left2) =
        recv_piece n p buffer stream total s1 ready1 left1 fit.0.1 in
      let ih =
        recv_next-Receives ps n time (buffer ++ p) rest ((total + length p) % 2 ^ 32) s2 ready2
          left2 fit.1 ht (omega arith) in
      record {
        after = ih.after;
        returns =
            read
            ∙ piece
            ∙ ih.returns
            ∙ ap (λ b. some ((ok, b, some (count_pieces total (p ∷ ps))), ih.after))
                (append_assoc buffer p (join ps));
        ready = ih.ready;
        keeps = ih.keeps ∙ sent2 ∙ sent1;
        leaves = ih.leaves;
      }

  -- The request goes out first.
  pub request_sent :
      (id : ℕ) (path : List ℕ) (s : S)
      → W.Ready s
      → (s' : S) × (request S C id path s ≡ some (success, s'))
        × W.Ready s'
        × (W.sent s' ≡ W.sent s ++ (two_words id (length path) ++ path))
        × (W.incoming s' ≡ W.incoming s)
  unfolding request
  request_sent id path s r =
      let (s1, wrote1, r1, sent1, kept1) = W.writes (two_words id (length path)) s r in
      let (s2, wrote2, r2, sent2, kept2) = W.writes path s1 r1 in
      (
        s2,
        attempt_success (C.write (two_words id (length path))) (pure failure) (C.write path) s
              wrote1
            ∙ wrote2,
        r2,
        sent2
            ∙ ap (λ x. x ++ path) sent1
            ∙ append_assoc (W.sent s) (two_words id (length path)) path,
        kept2 ∙ kept1,
      )

  length-pieces : (ps : List (List ℕ)) → ArePieces ps → length ps ≤ length (join ps)
  length-pieces [] fit = omega arith
  length-pieces (p ∷ ps) fit =
      let low : 0 < length p = fit.0.0 in
      omega (arith, low, length-append p (join ps), length-pieces ps fit.1)

  sync_recv_buffer-frames :
      (ps : List (List ℕ)) (fuel time : ℕ) (buffer rpath rest : List ℕ) (s : S)
      → W.Ready s
      → length rpath ≤ 1024
      → W.incoming s ≡ frames ps ++ (two_words id_done time ++ rest)
      → ArePieces ps
      → time < 2 ^ 32
      → length ps < fuel
      → (s' : S) × (sync_recv_buffer S C fuel buffer rpath s
          ≡ some ((ok, buffer ++ join ps, some (count_pieces 0 ps)), s'))
        × (W.sent s' ≡ W.sent s ++ (two_words id_recv (length rpath) ++ rpath))
        × (W.incoming s' ≡ rest)
  unfolding sync_recv_buffer recv_next
  sync_recv_buffer-frames ps fuel time buffer rpath rest s r short e fit ht h =
      let (s1, asked, ready, sent, kept) = request_sent id_recv rpath s r in
      let got = recv_next-Receives ps fuel time buffer rest 0 s1 ready (kept ∙ e) fit ht h in
      let below : ltb 1024 (length rpath) ≡ false = ground (arith, short) in
      (
        got.after,
        rw below (
            attempt_success (request S C id_recv rpath) (pure (minus_one, buffer, none))
              (recv_next fuel buffer 0) s asked
            ∙ got.returns),
        got.keeps ∙ sent,
        got.leaves,
      )

after_same :
    {S : Type 0} {run : Option (ℤ × S)} {a b : S} → run ≡ some (ok, a) → run ≡ some (ok, b) → a ≡ b
after_same {a = a} {b = b} e f = let both : some (ok, a) ≡ some (ok, b) = sym e ∙ f in cc

cancel_front : (xs ys zs : List ℕ) → xs ++ ys ≡ xs ++ zs → ys ≡ zs
cancel_front xs ys zs e =
    sym (drop-length-append xs ys) ∙ ap (drop (length xs)) e ∙ drop-length-append xs zs

-- What write_data_buffer has sent for a buffer of less than 2 ^ 31 bytes, followed by ID_DONE, is
-- received by sync_recv_buffer on a channel that works, with a remote path of at most 1,024 bytes
-- and fuel above the buffer's length: it asks for the path, returns 0 with the same buffer and its
-- length, and leaves what came in behind the message.
pub write_data_buffer-sync_recv_buffer :
    (S : Type 0) (C : SyncChannel S) (W : IsWire S C) (S' : Type 0) (C' : SyncChannel S')
    → (W' : IsWire S' C') (buffer wire rpath rest : List ℕ) (fuel time : ℕ) (s after : S) (s' : S')
    → W.Ready s
    → length buffer < 2 ^ 31
    → write_data_buffer S C buffer (length buffer) s ≡ some (ok, after)
    → W.sent after ≡ W.sent s ++ wire
    → W'.Ready s'
    → W'.incoming s' ≡ wire ++ (two_words id_done time ++ rest)
    → length rpath ≤ 1024
    → time < 2 ^ 32
    → length buffer < fuel
    → (after' : S') × (sync_recv_buffer S' C' fuel [] rpath s'
        ≡ some ((ok, buffer, some (length buffer)), after'))
      × (W'.sent after' ≡ W'.sent s' ++ (two_words id_recv (length rpath) ++ rpath))
      × (W'.incoming after' ≡ rest)
write_data_buffer-sync_recv_buffer S C W S' C' W' buffer wire rpath rest fuel time s after s' r
      small done sends r' e short ht enough =
    let out = write_data_buffer-SendsFrames S C W buffer s r small in
    let same_after : out.after ≡ after = after_same out.returns done in
    let framed : wire ≡ frames out.pieces =
      cancel_front (W.sent s) wire (frames out.pieces)
        (sym sends ∙ ap W.sent (sym same_after) ∙ out.sends) in
    let few = length-pieces S C W out.pieces out.fit in
    let size = ap length out.joined in
    let comes : W'.incoming s' ≡ frames out.pieces ++ (two_words id_done time ++ rest) =
      e ∙ ap (λ w. w ++ (two_words id_done time ++ rest)) framed in
    let (after', got, asked, left) =
      sync_recv_buffer-frames S' C' W' out.pieces fuel time [] rpath rest s' r' short comes out.fit
        ht (omega (arith, few, size, enough)) in
    let counted : count_pieces 0 out.pieces ≡ length buffer =
      count_pieces-join 0 out.pieces (omega arith) ∙ omega (arith, size, small) in
    (
      after',
      got
          ∙ ap (λ b. some ((ok, b, some (count_pieces 0 out.pieces)), after')) out.joined
          ∙ ap (λ k. some ((ok, buffer, some k), after')) counted,
      asked,
      left,
    )
