-- ===== src/Transport/Users/Write.antt =====
-- client_write cuts the data into messages that together are the data.
use adb_server_project.Common.{
  ℕ, zero, suc, ◌-◌, ◌≤◌, ◌≡◌, refl, inl, inr, true, false, List, [], ◌∷◌, ◌++◌, Option, none, some,
  arith, ap, sym, ◌∙◌, if-false, if◌then◌else◌, ◌==◌, ltb, take, drop, length, length-take,
  length-drop, take-length-append, length-append, Bool-cases, append_assoc, append-nil, take_split,
}
use adb_server_project.Common.Exec.{pure, ◌>>=◌, ◌>>◌}
use adb_server_project.Packet.{Apacket, Status, success, failure, max_payload, a_wrte}
use adb_server_project.Platform.{Platform, IsFifo}
use adb_server_project.Transport.State.{Transport, Aclient, close}
use adb_server_project.Transport.Send.{with_command, with_payload}
use adb_server_project.Transport.Clients.{client_get_ptr}
use adb_server_project.Transport.Wire.{
  Wire, outgoing, IsRunning, IsFrame, IsFrame-refl, IsFrame-trans,
}
use adb_server_project.Transport.Wire.Send.{send_packet-Sends, get_apacket-Sends}
use adb_server_project.Transport.Users.{is_type, local_remote_enqueue, write_piece, client_write}

-- The messages that carry the pieces of the data.
abbrev pub write_wires : ℕ → ℕ → List (List ℕ) → List Wire
write_wires local remote [] = []
write_wires local remote (piece ∷ pieces) =
    record { command = a_wrte; arg0 = local; arg1 = remote; bytes = piece }
    ∷ write_wires local remote pieces

abbrev pub joined : List (List ℕ) → List ℕ
joined [] = []
joined (piece ∷ pieces) = piece ++ joined pieces

-- Each piece has 1 to max_payload bytes.
abbrev pub Fit : List (List ℕ) → Type 0
Fit [] = Unit {0}
Fit (piece ∷ pieces) = (1 ≤ length piece) × (length piece ≤ max_payload) × Fit pieces

module _ (P : Platform) (fifo : IsFifo P) where
  -- A run that returns 0 on a running transport and sends the messages `ws`.
  pub record Writes (t : Transport P) (ws : List Wire) (r : Option (Status × Transport P))
      : Type 0 where
    pub after : Transport P
    pub returned : r ≡ some (success, after)
    pub running : IsRunning P fifo after
    pub sent : outgoing P fifo after ≡ outgoing P fifo t ++ ws
    pub frame : IsFrame P fifo t after

  pub client_get_ptr-users :
      (id : ℕ) (t u : Transport P)
      → u.userlist ≡ t.userlist
      → client_get_ptr P id u ≡ client_get_ptr P id t
  unfolding client_get_ptr
  client_get_ptr-users id t u e = rw e refl

  local_remote_enqueue-Writes :
      (local i : ℕ) (a : Aclient P) (p : Apacket) (t : Transport P)
      → IsRunning P fifo t
      → p.len ≤ length p.payload
      → client_get_ptr P local t ≡ some (i, a)
      → is_type a.biptype close ≡ false
      → Writes t
          (write_wires local a.remote_id (take p.len p.payload ∷ []))
          (local_remote_enqueue P local p t)
  unfolding local_remote_enqueue
  local_remote_enqueue-Writes local i a p t h fits found open_type =
      let s = send_packet-Sends P fifo (with_command a_wrte local a.remote_id p.len p) t fits h in
      record {
        after = s.after;
        returned =
            rw (found, open_type, local_remote_enqueue)
              (if-false t.kicked _ _ h.not_kicked ∙ rw (s.returned, ◌>>◌) refl);
        running = s.running;
        sent = s.sent;
        frame = s.frame;
      }

  write_piece-Writes :
      (local i : ℕ) (a : Aclient P) (bytes : List ℕ) (t : Transport P)
      → IsRunning P fifo t
      → client_get_ptr P local t ≡ some (i, a)
      → is_type a.biptype close ≡ false
      → Writes t (write_wires local a.remote_id (bytes ∷ [])) (write_piece P local bytes t)
  unfolding write_piece
  write_piece-Writes local i a bytes t h found open_type =
      let g = get_apacket-Sends P fifo t h in
      let w =
        local_remote_enqueue-Writes local i a
          (record (with_payload bytes g.result) { len = length bytes }) g.after g.running
          (omega (arith, length-append bytes (drop (length bytes) g.result.payload)))
          (client_get_ptr-users local t g.after g.frame.same_users ∙ found) open_type in
      record {
        after = w.after;
        returned = rw (g.returned, ◌>>=◌) w.returned;
        running = w.running;
        sent =
            w.sent
            ∙ ap
                (λ l.
                  l
                  ++ write_wires local a.remote_id
                      (take (length bytes) (bytes ++ drop (length bytes) g.result.payload) ∷ []))
                (g.sent ∙ append-nil (outgoing P fifo t))
            ∙ ap (λ b. outgoing P fifo t ++ write_wires local a.remote_id (b ∷ []))
                (take-length-append bytes (drop (length bytes) g.result.payload));
        frame = IsFrame-trans P fifo t g.after w.after g.frame w.frame;
      }

  nothing-Writes : (t : Transport P) → IsRunning P fifo t → Writes t [] (some (success, t))
  nothing-Writes t h = record {
    after = t;
    returned = refl;
    running = h;
    sent = sym (append-nil (outgoing P fifo t));
    frame = IsFrame-refl P fifo t;
  }

  -- A piece, then the rest.
  Writes-then :
      (local remote : ℕ) (piece : List ℕ) (pieces : List (List ℕ)) (t : Transport P)
      (m : Option (Status × Transport P)) (n : Transport P → Option (Status × Transport P))
      → (w : Writes t (write_wires local remote (piece ∷ [])) m)
      → Writes w.after (write_wires local remote pieces) (n w.after)
      → Writes t
          (write_wires local remote (piece ∷ pieces))
          (elim m [ none ↦ none | some (success, t') ↦ n t' | some (_, t') ↦ pure failure t' ])
  Writes-then local remote piece pieces t m n w r = record {
    after = r.after;
    returned = rw w.returned r.returned;
    running = r.running;
    sent =
        r.sent
        ∙ ap (λ l. l ++ write_wires local remote pieces) w.sent
        ∙ append_assoc (outgoing P fifo t) (write_wires local remote (piece ∷ []))
            (write_wires local remote pieces);
    frame = IsFrame-trans P fifo t w.after r.after w.frame r.frame;
  }

  -- On a running transport, with a channel that is not closed and a buffer that holds `len` bytes,
  -- client_write returns 0 and sends to the device the first `len` bytes of the buffer, in A_WRTE
  -- messages for the channel's remote end of 1 to max_payload bytes each, in order, and nothing else;
  -- the transport still runs, and the channels, the connection state and the keys stay as they are.
  -- As many turns of the loop as there are bytes are enough.
  pub client_write-Writes :
      (fuel len local i : ℕ) (a : Aclient P) (buffer : List ℕ) (t : Transport P)
      → len ≤ fuel
      → len ≤ length buffer
      → IsRunning P fifo t
      → client_get_ptr P local t ≡ some (i, a)
      → is_type a.biptype close ≡ false
      → (pieces : List (List ℕ)) × (joined pieces ≡ take len buffer)
        × Fit pieces
        × Writes t (write_wires local a.remote_id pieces) (client_write P fuel buffer len local t)
  unfolding client_write
  client_write-Writes zero len local i a buffer t enough holds h found open_type =
      let z : len ≡ 0 = omega arith in
      let test : (len == 0) ≡ true = ground arith in
      ([], sym (ap (λ k. take k buffer) z), tt, rw (test, client_write) (nothing-Writes t h))
  client_write-Writes (suc fuel) len local i a buffer t enough holds h found open_type =
      elim (Bool-cases (len == 0)) [
        | inl test ↦
            let z : len ≡ 0 = ground arith in
            ([], sym (ap (λ k. take k buffer) z), tt, rw (test, client_write) (nothing-Writes t h))
        | inr test ↦
            let slen = if ltb max_payload len then max_payload else len in
            let below : slen ≤ len = ground arith in
            let least : 1 ≤ slen = ground arith in
            let most : slen ≤ max_payload = ground arith in
            let whole : ltb (length buffer) slen ≡ false = ground arith in
            let w = write_piece-Writes local i a (take slen buffer) t h found open_type in
            let (pieces, same, fit, rest) =
              client_write-Writes fuel (len - slen) local i a (drop slen buffer) w.after
                (omega arith) (omega (arith, length-drop slen buffer)) w.running
                (client_get_ptr-users local t w.after w.frame.same_users ∙ found) open_type in
            (
              take slen buffer ∷ pieces,
              ap (◌++◌ (take slen buffer)) same ∙ take_split slen len buffer below,
              (omega (arith, length-take slen buffer), omega (arith, length-take slen buffer), fit),
              rw (test, whole, client_write)
                  (Writes-then local a.remote_id (take slen buffer) pieces t
                    (write_piece P local (take slen buffer) t)
                    (client_write P fuel (drop slen buffer) (len - slen) local) w rest),
            )
      ]
