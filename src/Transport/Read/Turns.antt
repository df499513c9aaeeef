-- ===== src/Transport/Read/Turns.antt =====
-- Each turn of client_read's loop, by what the kept packet is.
use adb_server_project.Common.{
  ℕ, ◌+◌, ◌-◌, ◌≤◌, ◌<◌, ◌≡◌, refl, inl, inr, true, false, List, ◌∷◌, ◌++◌, Option, none, some,
  arith, ◌==◌, ltb, take, drop, length, ap, sym, ◌∙◌, subst, if-true, if-false, Bool-cases,
  append-nil, length-take, length-drop, take_prefix, drop_prefix, take-take, drop-take, drop-drop,
}
use adb_server_project.Packet.{Apacket}
use adb_server_project.Platform.{Platform, IsFifo}
use adb_server_project.Transport.Clients.{update_client}
use adb_server_project.Transport.Session.{Session}
use adb_server_project.Transport.Wire.Send.{put_apacket-Sends, send_ready-Sends}
use adb_server_project.Transport.View.Refine.{own_fields-IsRunning}
use adb_server_project.Transport.Read.{unread, set_last, clen, next_packet, turn}
use adb_server_project.Transport.Read.Stream.{
  Sends-out_bytes, wire_bytes-ready_wires, inbox_bytes, AllWhole, IsReady, left, Turned, reading,
  rest_bytes-begun, slot-frame, updated_slot,
}

module _ (P : Platform) (fifo : IsFifo P) (i local_id remote_id wait_times : ℕ) where
  -- The kept packet is empty: it goes back.
  turn-empty :
      (p : Apacket) (readlen so_far : ℕ) (copied : List ℕ) (maxtimes : ℕ) (s : Session P)
      (h : IsReady P fifo i local_id remote_id wait_times
        (reading P fifo i local_id remote_id wait_times (some p) readlen so_far copied maxtimes)
        s)
      → (p.len == 0) ≡ true
      → Turned P fifo i local_id remote_id wait_times
          (reading P fifo i local_id remote_id wait_times (some p) readlen so_far copied maxtimes)
          s
          h.a
          (turn P i local_id remote_id wait_times
            (reading P fifo i local_id remote_id wait_times (some p) readlen so_far copied maxtimes)
            s)
  unfolding turn
  turn-empty p readlen so_far copied maxtimes s h empty =
      let w = put_apacket-Sends P fifo p s.transport h.running in
      let (off, begun, fits) = h.begun in
      let z : p.len ≡ 0 = ground arith in
      record {
        r' =
            reading P fifo i local_id remote_id wait_times none readlen so_far copied
              (s.clock + wait_times);
        s' = set_last P i local_id remote_id wait_times none (record s { transport = w.after });
        n = 0;
        returned = if-true (p.len == 0) _ _ empty ∙ rw w.returned refl;
        ready = record {
          a = record h.a { last_apacket = none };
          there = updated_slot P fifo i local_id remote_id wait_times _ w.after h.a (
              slot-frame P fifo i local_id remote_id wait_times s.transport w.after h.a w.frame
                h.there);
          kept = refl;
          open_type = h.open_type;
          begun = tt;
          whole = h.whole;
          running = own_fields-IsRunning P fifo w.after _ _ _ _ _ w.running;
          in_time = omega arith;
        };
        shorter = omega arith;
        longer = omega arith;
        copied = sym (append-nil copied);
        rest =
            ap (λ l. l ++ inbox_bytes (fifo.contents h.a.ptrlist))
              (sym (
                rest_bytes-begun P fifo i local_id remote_id wait_times p off begun
                ∙ ap (λ k. take k (drop off p.payload)) z));
        fewer = inr (rw empty (omega arith));
        kept_channel = record {
          same_user = refl;
          same_id = refl;
          same_remote = refl;
          same_type = refl;
          fewer_packets = omega arith;
          same_out = Sends-out_bytes P fifo s.transport _ _ w refl;
        };
        same_events = refl;
        same_clock = refl;
      }

  turn-copy :
      (p : Apacket) (readlen so_far : ℕ) (copied : List ℕ) (maxtimes : ℕ) (s : Session P)
      (h : IsReady P fifo i local_id remote_id wait_times
        (reading P fifo i local_id remote_id wait_times (some p) readlen so_far copied maxtimes)
        s)
      → (p.len == 0) ≡ false
      → 0 < readlen
      → Turned P fifo i local_id remote_id wait_times
          (reading P fifo i local_id remote_id wait_times (some p) readlen so_far copied maxtimes)
          s
          h.a
          (turn P i local_id remote_id wait_times
            (reading P fifo i local_id remote_id wait_times (some p) readlen so_far copied maxtimes)
            s)
  unfolding turn
  turn-copy p readlen so_far copied maxtimes s h more wanted =
      let r =
        reading P fifo i local_id remote_id wait_times (some p) readlen so_far copied maxtimes in
      let n = clen P i local_id remote_id wait_times p r in
      let (off, begun, fits) = h.begun in
      let of_packet : n ≤ p.len = ground arith in
      let of_reader : n ≤ readlen = ground arith in
      let inside : ltb (length p.payload) (off + n) ≡ false = ground arith in
      let bytes = take p.len (drop off p.payload) in
      let enough : n ≤ length bytes =
        omega (arith, length-take p.len (drop off p.payload), length-drop off p.payload) in
      let p' = record p { ptr = some (off + n); len = p.len - n } in
      record {
        r' =
            reading P fifo i local_id remote_id wait_times (some p') (readlen - n) (so_far + n)
              (copied ++ take n (drop off p.payload)) (s.clock + wait_times);
        s' = set_last P i local_id remote_id wait_times (some p') s;
        n = n;
        returned = if-false (p.len == 0) _ _ more ∙ rw (begun, inside) refl;
        ready = record {
          a = record h.a { last_apacket = some p' };
          there = updated_slot P fifo i local_id remote_id wait_times _ s.transport h.a h.there;
          kept = refl;
          open_type = h.open_type;
          begun = (off + n, refl, omega arith);
          whole = h.whole;
          running = own_fields-IsRunning P fifo s.transport _ _ _ _ _ h.running;
          in_time = omega arith;
        };
        shorter = omega arith;
        longer = refl;
        copied = ap (◌++◌ copied) (
            sym (
              ap (λ l. take n (l ++ inbox_bytes (fifo.contents h.a.ptrlist)))
                (rest_bytes-begun P fifo i local_id remote_id wait_times p off begun)
              ∙ take_prefix n bytes (inbox_bytes (fifo.contents h.a.ptrlist)) enough
              ∙ take-take n p.len (drop off p.payload) of_packet));
        rest = sym (
            ap (λ l. drop n (l ++ inbox_bytes (fifo.contents h.a.ptrlist)))
              (rest_bytes-begun P fifo i local_id remote_id wait_times p off begun)
            ∙ drop_prefix n bytes (inbox_bytes (fifo.contents h.a.ptrlist)) enough
            ∙ ap (λ l. l ++ inbox_bytes (fifo.contents h.a.ptrlist))
                (drop-take n p.len (drop off p.payload)
                  ∙ ap (take (p.len - n)) (drop-drop off n p.payload)));
        fewer = elim (Bool-cases (ltb p.len readlen)) [
          | inl whole_packet ↦
              let up : n ≡ p.len = ground arith in
              let used_up : (p.len - n == 0) ≡ true = ground arith in
              inr (rw (more, used_up) (omega arith))
          | inr part ↦ inl (ground arith)
        ];
        kept_channel = record {
          same_user = refl;
          same_id = refl;
          same_remote = refl;
          same_type = refl;
          fewer_packets = omega arith;
          same_out = refl;
        };
        same_events = refl;
        same_clock = refl;
      }

  turn-next :
      (readlen so_far : ℕ) (copied : List ℕ) (maxtimes : ℕ) (s : Session P)
      (h : IsReady P fifo i local_id remote_id wait_times
        (reading P fifo i local_id remote_id wait_times none readlen so_far copied maxtimes)
        s)
      → 0 < length (inbox_bytes (fifo.contents h.a.ptrlist))
      → Turned P fifo i local_id remote_id wait_times
          (reading P fifo i local_id remote_id wait_times none readlen so_far copied maxtimes)
          s
          h.a
          (turn P i local_id remote_id wait_times
            (reading P fifo i local_id remote_id wait_times none readlen so_far copied maxtimes)
            s)
  unfolding turn
  turn-next readlen so_far copied maxtimes s h some_left = elim (fifo.pop_first h.a.ptrlist) [
    | inl (empty, nothing) ↦
        let z : length (inbox_bytes (fifo.contents h.a.ptrlist)) ≡ 0 =
          ap (λ ps. length (inbox_bytes ps)) empty in
        absurd (omega arith)
    | inr (p, q, grown, popped) ↦
        let w = send_ready-Sends P fifo local_id remote_id s.transport h.running in
        let there =
          slot-frame P fifo i local_id remote_id wait_times s.transport w.after h.a w.frame
            h.there in
        let (fits, others) : AllWhole (p ∷ fifo.contents q) = subst AllWhole grown h.whole in
        record {
          r' =
              reading P fifo i local_id remote_id wait_times (some (unread p)) readlen so_far copied
                (s.clock + wait_times);
          s' = record s {
            transport =
                update_client P i (λ c. record c { ptrlist = q; last_apacket = some (unread p) })
                  w.after;
          };
          n = 0;
          returned = rw (w.returned, there, popped, turn, next_packet) refl;
          ready = record {
            a = record h.a { ptrlist = q; last_apacket = some (unread p) };
            there = updated_slot P fifo i local_id remote_id wait_times _ w.after h.a there;
            kept = refl;
            open_type = h.open_type;
            begun = (0, refl, omega arith);
            whole = others;
            running = own_fields-IsRunning P fifo w.after _ _ _ _ _ w.running;
            in_time = omega arith;
          };
          shorter = omega arith;
          longer = omega arith;
          copied = sym (append-nil copied);
          rest = sym (ap inbox_bytes grown);
          fewer = inr (elim (Bool-cases (p.msg.data_length == 0)) [
            | inl e ↦ rw e (omega (arith, ap length grown))
            | inr e ↦ rw e (omega (arith, ap length grown))
          ]);
          kept_channel = record {
            same_user = refl;
            same_id = refl;
            same_remote = refl;
            same_type = refl;
            fewer_packets = omega (arith, ap length grown);
            same_out =
                Sends-out_bytes P fifo s.transport _ _ w
                  (wire_bytes-ready_wires local_id remote_id);
          };
          same_events = refl;
          same_clock = refl;
        }
  ]

  pub turn-Turned :
      (last : Option Apacket) (readlen so_far : ℕ) (copied : List ℕ) (maxtimes : ℕ) (s : Session P)
      (h : IsReady P fifo i local_id remote_id wait_times
        (reading P fifo i local_id remote_id wait_times last readlen so_far copied maxtimes)
        s)
      → 0 < readlen
      → readlen ≤ length (left P fifo i local_id remote_id wait_times last h.a)
      → Turned P fifo i local_id remote_id wait_times
          (reading P fifo i local_id remote_id wait_times last readlen so_far copied maxtimes)
          s
          h.a
          (turn P i local_id remote_id wait_times
            (reading P fifo i local_id remote_id wait_times last readlen so_far copied maxtimes)
            s)
  turn-Turned none readlen so_far copied maxtimes s h wanted enough =
      turn-next readlen so_far copied maxtimes s h (omega arith)
  turn-Turned (some p) readlen so_far copied maxtimes s h wanted enough =
      elim (Bool-cases (p.len == 0)) [
        | inl empty ↦ turn-empty p readlen so_far copied maxtimes s h empty
        | inr more ↦ turn-copy p readlen so_far copied maxtimes s h more wanted
      ]
