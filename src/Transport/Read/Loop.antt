-- ===== src/Transport/Read/Loop.antt =====
-- The loop of client_read, turn by turn.
use adb_server_project.Common.{
  ℕ, zero, suc, ◌+◌, ◌-◌, ◌≤◌, ◌<◌, ◌≡◌, refl, ◌⊎◌, inl, inr, true, false, not, List, [], ◌∷◌, ◌++◌,
  Option, none, some, arith, if◌then◌else◌, ◌==◌, ltb, take, drop, length, ap, sym, ◌∙◌, subst,
  if-true, if-false, Bool-cases, append_assoc, append-nil, length-drop, drop-drop, take_split,
}
use adb_server_project.Packet.{Apacket}
use adb_server_project.Platform.{Platform, IsFifo}
use adb_server_project.Transport.State.{Aclient}
use adb_server_project.Transport.Session.{Session}
use adb_server_project.Transport.Read.{Reading, turn, goes_on, timed_out, read_loop}
use adb_server_project.Transport.Read.Stream.{
  KeepsChannel, KeepsChannel-refl, KeepsChannel-trans, rest_bytes, inbox_bytes, turns_of_last,
  turns_left, IsReady, left, Turned, reading,
}
use adb_server_project.Transport.Read.Turns.{turn-Turned}

module _ (P : Platform) (fifo : IsFifo P) (i local_id remote_id wait_times : ℕ) where
  no_turns :
      (last : Option Apacket) (ps : List Apacket)
      → turns_left last ps ≤ 0
      → length (rest_bytes last ++ inbox_bytes ps) ≡ 0
  no_turns none [] h = refl
  no_turns none (p ∷ ps) h = absurd (omega arith)
  no_turns (some p) ps h = elim (Bool-cases (p.len == 0)) [
    | inl e ↦ let one : turns_of_last (some p) ≡ 1 = rw e refl in absurd (omega arith)
    | inr e ↦ let two : turns_of_last (some p) ≡ 2 = rw e refl in absurd (omega arith)
  ]

  goes_on-ready :
      (r : Reading) (s : Session P)
      → IsReady P fifo i local_id remote_id wait_times r s
      → (r.readlen == 0) ≡ false
      → goes_on P i local_id remote_id wait_times r s ≡ true
  goes_on-ready r s h more = rw (more, h.there, h.open_type) (ap not h.running.not_kicked)

  goes_on-done :
      (r : Reading) (s : Session P)
      → (r.readlen == 0) ≡ true
      → goes_on P i local_id remote_id wait_times r s ≡ false
  goes_on-done r s done = rw done refl

  timed_out-ready :
      (r : Reading) (s : Session P)
      → IsReady P fifo i local_id remote_id wait_times r s
      → timed_out P i local_id remote_id wait_times r s ≡ false
  timed_out-ready r s h =
      let early : ltb r.maxtimes s.clock ≡ false = ground (arith, h.in_time) in
      elim (Bool-cases (wait_times == 0)) [ inl e ↦ rw e refl | inr e ↦ rw (e, early) refl ]

  -- The loop has read all that was asked for.
  pub record Reads (r : Reading) (s : Session P) (a : Aclient P) (o : Option (Reading × Session P))
      : Type 0 where
    pub r' : Reading
    pub s' : Session P
    pub returned : o ≡ some (r', s')
    pub ready : IsReady P fifo i local_id remote_id wait_times r' s'
    pub all_read : r'.length_so_far ≡ r.length_so_far + r.readlen
    pub copied :
        r'.copied
        ≡ r.copied ++ take r.readlen (left P fifo i local_id remote_id wait_times r.last a)
    pub rest :
        left P fifo i local_id remote_id wait_times r'.last ready.a
        ≡ drop r.readlen (left P fifo i local_id remote_id wait_times r.last a)
    pub kept_channel : KeepsChannel P fifo a s ready.a s'
    pub same_events : s'.events ≡ s.events
    pub same_clock : s'.clock ≡ s.clock

  nothing-Reads :
      (readlen : ℕ) (r : Reading) (s : Session P)
      (h : IsReady P fifo i local_id remote_id wait_times r s)
      → r.readlen ≡ 0
      → Reads r s h.a (some (r, s))
  nothing-Reads readlen r s h z = record {
    r' = r;
    s' = s;
    returned = refl;
    ready = h;
    all_read = omega arith;
    copied =
        sym (append-nil r.copied)
        ∙ ap (λ k. r.copied ++ take k (left P fifo i local_id remote_id wait_times r.last h.a))
            (sym z);
    rest = ap (λ k. drop k (left P fifo i local_id remote_id wait_times r.last h.a)) (sym z);
    kept_channel = KeepsChannel-refl P fifo h.a s;
    same_events = refl;
    same_clock = refl;
  }

  -- A turn, then the rest of the loop.
  Turned-then :
      (r : Reading) (s : Session P) (a : Aclient P) (o : Option (Reading × Session P)) (fuel : ℕ)
      (w : Turned P fifo i local_id remote_id wait_times r s a o)
      → Reads w.r' w.s' w.ready.a (read_loop P i local_id remote_id wait_times fuel w.r' w.s')
      → Reads r s a (elim o [
        | none ↦ none
        | some (r', s') ↦
            if timed_out P i local_id remote_id wait_times r' s'
            then some (r', s')
            else read_loop P i local_id remote_id wait_times fuel r' s'
      ])
  Turned-then r s a o fuel w k =
      let n_below : w.n ≤ r.readlen = omega (arith, w.shorter) in
      let later : w.r'.readlen ≡ r.readlen - w.n = omega (arith, w.shorter) in
      record {
        r' = k.r';
        s' = k.s';
        returned = rw (w.returned) (
            if-false (timed_out P i local_id remote_id wait_times w.r' w.s') _ _
              (timed_out-ready w.r' w.s' w.ready)
            ∙ k.returned);
        ready = k.ready;
        all_read = omega (arith, k.all_read, w.longer, w.shorter);
        copied =
            k.copied
            ∙ ap
                (λ l.
                  l
                  ++ take w.r'.readlen
                      (left P fifo i local_id remote_id wait_times w.r'.last w.ready.a))
                w.copied
            ∙ append_assoc r.copied
                (take w.n (left P fifo i local_id remote_id wait_times r.last a))
                (take w.r'.readlen
                  (left P fifo i local_id remote_id wait_times w.r'.last w.ready.a))
            ∙ ap (◌++◌ r.copied) (
                ap
                  (λ l.
                    take w.n (left P fifo i local_id remote_id wait_times r.last a)
                    ++ take w.r'.readlen l)
                  w.rest
                ∙ ap
                    (λ m.
                      take w.n (left P fifo i local_id remote_id wait_times r.last a)
                      ++ take m (drop w.n (left P fifo i local_id remote_id wait_times r.last a)))
                    later
                ∙ take_split w.n r.readlen (left P fifo i local_id remote_id wait_times r.last a)
                    n_below);
        rest =
            k.rest
            ∙ ap (drop w.r'.readlen) w.rest
            ∙ drop-drop w.n w.r'.readlen (left P fifo i local_id remote_id wait_times r.last a)
            ∙ (let whole : w.n + w.r'.readlen ≡ r.readlen = omega (arith, w.shorter) in
                ap (λ m. drop m (left P fifo i local_id remote_id wait_times r.last a)) whole);
        kept_channel =
            KeepsChannel-trans P fifo a w.ready.a k.ready.a s w.s' k.s' w.kept_channel
              k.kept_channel;
        same_events = k.same_events ∙ w.same_events;
        same_clock = k.same_clock ∙ w.same_clock;
      }

  pub read_loop-Reads :
      (fuel : ℕ) (last : Option Apacket) (readlen so_far : ℕ) (copied : List ℕ) (maxtimes : ℕ)
      (s : Session P)
      (h : IsReady P fifo i local_id remote_id wait_times
        (reading P fifo i local_id remote_id wait_times last readlen so_far copied maxtimes)
        s)
      → readlen ≤ length (left P fifo i local_id remote_id wait_times last h.a)
      → (readlen ≡ 0) ⊎ (turns_left last (fifo.contents h.a.ptrlist) ≤ fuel)
      → Reads
          (reading P fifo i local_id remote_id wait_times last readlen so_far copied maxtimes)
          s
          h.a
          (read_loop P i local_id remote_id wait_times fuel
            (reading P fifo i local_id remote_id wait_times last readlen so_far copied maxtimes)
            s)
  unfolding read_loop
  read_loop-Reads zero last readlen so_far copied maxtimes s h enough turns =
      let z : readlen ≡ 0 = elim turns [
        | inl none_wanted ↦ none_wanted
        | inr no_fuel ↦ omega (arith, no_turns last (fifo.contents h.a.ptrlist) no_fuel)
      ] in
      let test : (readlen == 0) ≡ true = ground arith in
      let r = reading P fifo i local_id remote_id wait_times last readlen so_far copied maxtimes in
      subst (Reads r s h.a)
        (sym (
          if-false (goes_on P i local_id remote_id wait_times r s) none (some (r, s))
            (goes_on-done r s test)))
        (nothing-Reads readlen r s h z)
  read_loop-Reads (suc fuel) last readlen so_far copied maxtimes s h enough turns =
      let r = reading P fifo i local_id remote_id wait_times last readlen so_far copied maxtimes in
      elim (Bool-cases (readlen == 0)) [
        | inl test ↦
            let z : readlen ≡ 0 = ground arith in
            subst (Reads r s h.a)
              (sym (
                if-false (goes_on P i local_id remote_id wait_times r s) _ (some (r, s))
                  (goes_on-done r s test)))
              (nothing-Reads readlen r s h z)
        | inr more ↦
            let wanted : 0 < readlen = ground arith in
            let w =
              turn-Turned P fifo i local_id remote_id wait_times last readlen so_far copied maxtimes
                s h wanted enough in
            let room : length (left P fifo i local_id remote_id wait_times w.r'.last w.ready.a)
                ≡ length (left P fifo i local_id remote_id wait_times last h.a) - w.n =
              ap length w.rest
              ∙ length-drop w.n (left P fifo i local_id remote_id wait_times last h.a) in
            let fewer : (w.r'.readlen ≡ 0)
                ⊎ (turns_left w.r'.last (fifo.contents w.ready.a.ptrlist) ≤ fuel) =
              elim w.fewer [
                | inl done ↦ inl done
                | inr less ↦ elim turns [
                  | inl none_wanted ↦ absurd (omega arith)
                  | inr bound ↦ inr (omega arith)
                ]
              ] in
            subst (Reads r s h.a)
              (sym (
                if-true (goes_on P i local_id remote_id wait_times r s) _ (some (r, s))
                  (goes_on-ready r s h more)))
              (Turned-then r s h.a (turn P i local_id remote_id wait_times r s) fuel w (
                read_loop-Reads fuel w.r'.last w.r'.readlen w.r'.length_so_far w.r'.copied
                  w.r'.maxtimes w.s' w.ready (omega (arith, room, w.shorter)) fewer))
      ]
