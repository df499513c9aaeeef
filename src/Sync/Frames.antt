-- ===== src/Sync/Frames.antt =====
-- write_data_buffer and write_data_file on a channel that works: the data go out in frames.
use adb_server_project.Common.{
  ℕ, zero, suc, ◌-◌, ◌^◌, ◌≤◌, ◌<◌, ◌≡◌, refl, sym, ap, ◌∙◌, false, List, [], ◌∷◌, ◌++◌, append-nil,
  append_assoc, Option, some, if◌then◌else◌, ◌==◌, ltb, drop, take, length, arith, length-take,
  length-drop, take-append-drop,
}
use adb_server_project.Common.Exec.{pure}
use adb_server_project.Common.Int.{ℤ}
use adb_server_project.Sync.{SyncChannel, sync_data_max, ok, minus_one, attempt, is_negative}
use adb_server_project.Sync.Requests.{write_pieces, write_data_buffer, data_frame}
use adb_server_project.Sync.Wire.{IsWire, attempt_success}

abbrev pub join : List (List ℕ) → List ℕ
join [] = []
join (p ∷ ps) = p ++ join ps

-- The frames of some pieces, one after the other.
abbrev pub frames : List (List ℕ) → List ℕ
frames [] = []
frames (p ∷ ps) = data_frame p ++ frames ps

-- Each piece has a byte at least, and fits into a frame.
abbrev pub ArePieces : List (List ℕ) → Type 0
ArePieces [] = Unit {0}
ArePieces (p ∷ ps) = ((0 < length p) × (length p ≤ sync_data_max)) × ArePieces ps

module _ (S : Type 0) (C : SyncChannel S) where
  pub nothing_left : (n : ℕ) (s : S) → write_pieces S C n [] 0 s ≡ some (ok, s)
  unfolding write_pieces
  nothing_left zero s = refl
  nothing_left (suc n) s = refl

  pub write_step :
      (n : ℕ) (buffer : List ℕ) (rest count : ℕ) (s : S)
      → (rest == 0) ≡ false
      → (if ltb sync_data_max rest then sync_data_max else rest) ≡ count
      → ltb (length buffer) count ≡ false
      → write_pieces S C (suc n) buffer rest s
        ≡ attempt
            (C.write (data_frame (take count buffer)))
            (pure minus_one)
            (write_pieces S C n (drop count buffer) (rest - count))
            s
  unfolding write_pieces
  write_step n buffer rest count s more chosen inside = rw (more, chosen, inside) refl

module _ (S : Type 0) (C : SyncChannel S) (W : IsWire S C) where
  -- A run that sends the frames of pieces which together are the data, and returns 0.
  pub record SendsFrames (bytes : List ℕ) (s : S) (run : Option (ℤ × S)) : Type 0 where
    pub after : S
    pub pieces : List (List ℕ)
    pub returns : run ≡ some (ok, after)
    pub ready : W.Ready after
    pub fit : ArePieces pieces
    pub joined : join pieces ≡ bytes
    pub sends : W.sent after ≡ W.sent s ++ frames pieces
    pub keeps : W.incoming after ≡ W.incoming s

  write_pieces-SendsFrames :
      (n : ℕ) (buffer : List ℕ) (s : S)
      → W.Ready s
      → length buffer ≤ n
      → SendsFrames buffer s (write_pieces S C n buffer (length buffer) s)
  unfolding write_pieces
  write_pieces-SendsFrames n [] s r h = record {
    after = s;
    pieces = [];
    returns = nothing_left S C n s;
    ready = r;
    fit = tt;
    joined = refl;
    sends = sym (append-nil (W.sent s));
    keeps = refl;
  }
  write_pieces-SendsFrames zero (b ∷ buffer) s r h = absurd (omega arith)
  write_pieces-SendsFrames (suc n) (b ∷ buffer) s r h =
      let data_left = b ∷ buffer in
      let count =
        if ltb sync_data_max (length data_left) then sync_data_max else length data_left in
      let low : 0 < count = ground arith in
      let high : count ≤ sync_data_max = ground arith in
      let inside : count ≤ length data_left = ground arith in
      let piece = take count data_left in
      let (s1, wrote, ready, sent, kept) = W.writes (data_frame piece) s r in
      let rest = drop count data_left in
      let left : length rest ≡ length data_left - count = length-drop count data_left in
      let ih = write_pieces-SendsFrames n rest s1 ready (omega (arith, left, low)) in
      record {
        after = ih.after;
        pieces = piece ∷ ih.pieces;
        returns =
            write_step S C n data_left (length data_left) count s (ground arith) refl (ground arith)
            ∙ attempt_success (C.write (data_frame piece)) (pure minus_one)
                (write_pieces S C n rest (length data_left - count)) s wrote
            ∙ ap (λ k. write_pieces S C n rest k s1) (sym left)
            ∙ ih.returns;
        ready = ih.ready;
        fit = (
          (
            omega (arith, length-take count data_left, low),
            omega (arith, length-take count data_left, high),
          ),
          ih.fit,
        );
        joined = ap (◌++◌ piece) ih.joined ∙ take-append-drop count data_left;
        sends =
            ih.sends
            ∙ ap (λ x. x ++ frames ih.pieces) sent
            ∙ append_assoc (W.sent s) (data_frame piece) (frames ih.pieces);
        keeps = ih.keeps ∙ kept;
      }

  pub write_data_buffer-SendsFrames :
      (buffer : List ℕ) (s : S)
      → W.Ready s
      → length buffer < 2 ^ 31
      → SendsFrames buffer s (write_data_buffer S C buffer (length buffer) s)
  unfolding write_data_buffer
  write_data_buffer-SendsFrames buffer s r h =
      let small : is_negative (length buffer) ≡ false = ground arith in
      rw small (write_pieces-SendsFrames (length buffer) buffer s r (omega arith))
