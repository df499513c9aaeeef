-- ===== src/Transport/Output/Drained.antt =====
-- shell_recv on a channel that is no shell: the device has closed it.
use adb_server_project.Common.{
  ℕ, zero, suc, ◌+◌, ◌≤◌, ◌≡◌, refl, inl, inr, true, false, ◌&&◌, not, List, [], ◌∷◌, ◌++◌, Option,
  some, arith, ap, sym, ◌∙◌, Bool-cases, if-false, ◌==◌, ltb, take, length, append-nil,
  append_assoc,
}
use adb_server_project.Common.Int.{pos}
use adb_server_project.Packet.{Apacket}
use adb_server_project.Platform.{Platform, IsFifo}
use adb_server_project.Transport.State.{
  Aclient, BipbufferType, close, shell_sync, shell_async, file_sync, forward,
}
use adb_server_project.Transport.Clients.{slot, update_client, client_get_ptr}
use adb_server_project.Transport.Clients.Lookup.{client_get_ptr-some, slot-update_list_self}
use adb_server_project.Transport.Session.{Session}
use adb_server_project.Transport.Users.{is_type}
use adb_server_project.Transport.Wire.{IsRunning}
use adb_server_project.Transport.Wire.Send.{put_apacket-Sends, send_ready-Sends}
use adb_server_project.Transport.View.Refine.{own_fields-IsRunning}
use adb_server_project.Transport.Read.Stream.{inbox_bytes, AllWhole}
use adb_server_project.Transport.Output.{
  Listening, is_shell, append_packet, nothing_there, round, with_limit, listen, shell_recv,
}

not_async : (b : BipbufferType) → is_shell b ≡ false → is_type b shell_async ≡ false
not_async close e = refl
not_async shell_sync e = let never : true ≡ false = e in cc
not_async shell_async e = let never : true ≡ false = e in cc
not_async file_sync e = refl
not_async forward e = refl

module _ (P : Platform) (fifo : IsFifo P) (i local_id remote_id wait_times : ℕ) where
  -- The loop can go on without waiting, to the end of the queue.
  pub record IsClosing (ps : List Apacket) (l : Listening) (s : Session P) : Type 0 where
    pub a : Aclient P
    pub there : slot P s.transport.userlist i ≡ some a
    pub no_shell : is_shell a.biptype ≡ false
    pub holds : fifo.contents a.ptrlist ≡ ps
    pub whole : AllWhole ps
    pub running : IsRunning P fifo s.transport
    pub in_time : s.clock ≤ l.maxtime
    pub goes_on : l.succ ≡ false

  -- The end of the queue ends the loop.
  round_ends :
      (l : Listening) (s : Session P)
      → IsClosing [] l s
      → (s' : Session P) × (round P i local_id remote_id wait_times l s
          ≡ some (record l { succ = true }, s'))
        × IsRunning P fifo s'.transport
        × (s'.events ≡ s.events)
  unfolding round
  round_ends l s h =
      let w = send_ready-Sends P fifo local_id remote_id s.transport h.running in
      let there : slot P w.after.userlist i ≡ some h.a =
        ap (λ u. slot P u i) w.frame.same_users ∙ h.there in
      elim (fifo.pop_first h.a.ptrlist) [
        | inl (empty, popped) ↦ (
          record s { transport = w.after },
          rw (w.returned, there, popped, round, nothing_there, h.no_shell) refl,
          w.running,
          refl,
        )
        | inr (p, q, all, popped) ↦ let never : [] ≡ p ∷ fifo.contents q = sym h.holds ∙ all in cc
      ]

  -- A packet that was received is appended.
  round_appends :
      (p : Apacket) (ps : List Apacket) (l : Listening) (s : Session P)
      → IsClosing (p ∷ ps) l s
      → (l' : Listening) × (s' : Session P) × (round P i local_id remote_id wait_times l s
          ≡ some (l', s'))
        × IsClosing ps l' s'
        × (l'.ret ≡ l.ret ++ take p.msg.data_length p.payload)
        × (s'.events ≡ s.events)
  unfolding round
  round_appends p ps l s h =
      let w = send_ready-Sends P fifo local_id remote_id s.transport h.running in
      let there : slot P w.after.userlist i ≡ some h.a =
        ap (λ u. slot P u i) w.frame.same_users ∙ h.there in
      elim (fifo.pop_first h.a.ptrlist) [
        | inl (empty, popped) ↦ let never : p ∷ ps ≡ [] = sym h.holds ∙ empty in cc
        | inr (q, rest, all, popped) ↦
            let front : p ∷ ps ≡ q ∷ fifo.contents rest = sym h.holds ∙ all in
            let first : q ≡ p = cc in
            let others : fifo.contents rest ≡ ps = cc in
            let t = update_client P i (λ c. record c { ptrlist = rest }) w.after in
            let put =
              put_apacket-Sends P fifo p t
                (own_fields-IsRunning P fifo w.after _ _ _ _ _ w.running) in
            let inside : ltb (length p.payload) p.msg.data_length ≡ false =
              ground (arith, h.whole.0) in
            let l' = record l {
              ret = l.ret ++ take p.msg.data_length p.payload;
              maxtime = s.clock + wait_times;
            } in
            let s' = record s { transport = put.after } in
            let popped' : P.pop h.a.ptrlist ≡ some (p, rest) =
              popped ∙ ap (λ x. some (x, rest)) first in
            (
              l',
              s',
              rw
                  (
                    w.returned,
                    there,
                    popped',
                    round,
                    append_packet,
                    inside,
                    put.returned,
                    not_async h.a.biptype h.no_shell,
                  )
                  refl,
              record {
                a = record h.a { ptrlist = rest };
                there =
                    ap (λ u. slot P u i) put.frame.same_users
                    ∙ slot-update_list_self P i _ w.after.userlist h.a there;
                no_shell = h.no_shell;
                holds = others;
                whole = h.whole.1;
                running = put.running;
                in_time = omega arith;
                goes_on = h.goes_on;
              },
              refl,
              refl,
            )
      ]

  with_limit-succ :
      (l : Listening) (s : Session P)
      → l.succ ≡ true
      → (with_limit P i local_id remote_id wait_times l s).succ ≡ true
  with_limit-succ l s e = elim (Bool-cases (not (wait_times == 0) && ltb l.maxtime s.clock)) [
    | inl up ↦ rw up refl
    | inr more ↦ rw more e
  ]

  with_limit-in_time :
      (l : Listening) (s : Session P)
      → l.succ ≡ false
      → s.clock ≤ l.maxtime
      → (with_limit P i local_id remote_id wait_times l s).succ ≡ false
  with_limit-in_time l s e h =
      let early : ltb l.maxtime s.clock ≡ false = ground (arith, h) in
      elim (Bool-cases (wait_times == 0)) [ inl z ↦ rw z e | inr more ↦ rw (more, early) e ]

  abbrev limited : Listening → Session P → Listening
  limited = with_limit P i local_id remote_id wait_times

  abbrev pub listening : ℕ → Listening → Session P → Option (Listening × Session P)
  listening = listen P i local_id remote_id wait_times

  listen-ends :
      (fuel : ℕ) (l l' : Listening) (s s' : Session P)
      → s.transport.kicked ≡ false
      → round P i local_id remote_id wait_times l s ≡ some (l', s')
      → s'.transport.kicked ≡ false
      → (limited l' s').succ ≡ true
      → listening (suc fuel) l s ≡ some (limited l' s', s')
  unfolding listen
  listen-ends fuel l l' s s' k run k' done =
      if-false s.transport.kicked _ _ k
      ∙ rw run (
          if-false s'.transport.kicked _ _ k'
          ∙ ap
              (λ b. elim b [
                | true ↦ some (limited l' s', s')
                | false ↦ listening fuel (limited l' s') s'
              ])
              done)

  listen-goes_on :
      (fuel : ℕ) (l l' : Listening) (s s' : Session P)
      → s.transport.kicked ≡ false
      → round P i local_id remote_id wait_times l s ≡ some (l', s')
      → s'.transport.kicked ≡ false
      → (limited l' s').succ ≡ false
      → listening (suc fuel) l s ≡ listening fuel (limited l' s') s'
  unfolding listen
  listen-goes_on fuel l l' s s' k run k' more =
      if-false s.transport.kicked _ _ k
      ∙ rw run (
          if-false s'.transport.kicked _ _ k'
          ∙ ap
              (λ b. elim b [
                | true ↦ some (limited l' s', s')
                | false ↦ listening fuel (limited l' s') s'
              ])
              more)

  pub listen-drains :
      (ps : List Apacket) (fuel : ℕ) (l : Listening) (s : Session P)
      → IsClosing ps l s
      → length ps + 1 ≤ fuel
      → (l' : Listening) × (s' : Session P) × (listening fuel l s ≡ some (l', s'))
        × (l'.ret ≡ l.ret ++ inbox_bytes ps)
        × IsRunning P fifo s'.transport
        × (s'.events ≡ s.events)
  listen-drains ps zero l s h enough = absurd (omega arith)
  listen-drains [] (suc fuel) l s h enough =
      let (s', run, running, same) = round_ends l s h in
      let l' = record l { succ = true } in
      (
        limited l' s',
        s',
        listen-ends fuel l l' s s' h.running.not_kicked run running.not_kicked
            (with_limit-succ l' s' refl),
        sym (append-nil l.ret),
        running,
        same,
      )
  listen-drains (p ∷ ps) (suc fuel) l s h enough =
      let (l', s', run, h', grown, same) = round_appends p ps l s h in
      let more = with_limit-in_time l' s' h'.goes_on h'.in_time in
      let h'' : IsClosing ps (limited l' s') s' = record {
        a = h'.a;
        there = h'.there;
        no_shell = h'.no_shell;
        holds = h'.holds;
        whole = h'.whole;
        running = h'.running;
        in_time = h'.in_time;
        goes_on = more;
      } in
      let (l'', s'', rest, all, running, same') =
        listen-drains ps fuel (limited l' s') s' h'' (omega arith) in
      (
        l'',
        s'',
        listen-goes_on fuel l l' s s' h.running.not_kicked run h'.running.not_kicked more ∙ rest,
        all ∙ ap (λ r. r ++ inbox_bytes ps) grown ∙ append_assoc l.ret _ (inbox_bytes ps),
        running,
        same' ∙ same,
      )

module _ (P : Platform) (fifo : IsFifo P) where
  -- On a channel of a running transport that is in use and no shell, as it is once the device has
  -- closed it, shell_recv returns 0 without waiting, whatever the timeout, and what it has put behind
  -- the caller's string is the bytes of all packets that the channel still had, in their order, where
  -- the announced bytes lie in the packets' arrays; the transport still runs. One round of the loop for
  -- each of these packets and one more are enough.
  pub shell_recv-closed :
      (fuel : ℕ) (ret : List ℕ) (local_id wait_times i : ℕ) (a : Aclient P) (s : Session P)
      → IsRunning P fifo s.transport
      → client_get_ptr P local_id s.transport ≡ some (i, a)
      → is_shell a.biptype ≡ false
      → AllWhole (fifo.contents a.ptrlist)
      → length (fifo.contents a.ptrlist) + 1 ≤ fuel
      → (s' : Session P) × (shell_recv P fuel ret local_id wait_times s
          ≡ some ((pos 0, ret ++ inbox_bytes (fifo.contents a.ptrlist)), s'))
        × IsRunning P fifo s'.transport
        × (s'.events ≡ s.events)
  unfolding shell_recv
  shell_recv-closed fuel ret local_id wait_times i a s running found no_shell whole enough =
      let l : Listening = record {
        ret = ret;
        is_add_char = false;
        endptr = some 0;
        maxtime = s.clock + wait_times;
        succ = false;
      } in
      let h : IsClosing P fifo i local_id a.remote_id wait_times (fifo.contents a.ptrlist) l s =
        record {
          a = a;
          there = (client_get_ptr-some P local_id i a s.transport found).1;
          no_shell = no_shell;
          holds = refl;
          whole = whole;
          running = running;
          in_time = omega arith;
          goes_on = refl;
        } in
      let (l', s', run, all, running', same) =
        listen-drains P fifo i local_id a.remote_id wait_times (fifo.contents a.ptrlist) fuel l s h
          enough in
      let called : shell_recv P fuel ret local_id wait_times s ≡ some ((pos 0, l'.ret), s') =
        simp (shell_recv, found, run) refl in
      (s', called ∙ ap (λ r. some ((pos 0, r), s')) all, running', same)
