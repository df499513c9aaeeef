-- ===== src/Transport/Output.antt =====
-- Catransport::shell_recv: what a channel has received goes to the end of the caller's string, until
-- a prompt shows in the output of an asynchronous shell, the time is up or the channel is closed.
pub mod Drained
use adb_server_project.Common.{
  ℕ, zero, suc, ◌+◌, ◌-◌, Bool, true, false, ◌&&◌, ◌||◌, not, List, [], ◌∷◌, ◌++◌, Option, none,
  some, if◌then◌else◌, ◌==◌, ltb, take, drop, length,
}
use adb_server_project.Common.Int.{ℤ, pos, negsuc}
use adb_server_project.Common.Exec.{Exec}
use adb_server_project.Packet.{Apacket}
use adb_server_project.Platform.{Platform}
use adb_server_project.Transport.State.{Transport, Aclient, BipbufferType, shell_sync, shell_async}
use adb_server_project.Transport.Packets.{put_apacket}
use adb_server_project.Transport.Send.{send_ready}
use adb_server_project.Transport.Clients.{slot, update_client, client_get_ptr}
use adb_server_project.Transport.Session.{Session, lift, wait}
use adb_server_project.Transport.Users.{is_type}

-- The caller's string and the loop's variables; `endptr` is none where it is negative.
pub record Listening : Type 0 where
  pub ret : List ℕ
  pub is_add_char : Bool
  pub endptr : Option ℕ
  pub maxtime : ℕ
  pub succ : Bool

abbrev pub is_shell : BipbufferType → Bool
is_shell b = is_type b shell_sync || is_type b shell_async

-- `ret.length() - 5`.
abbrev pub last_five : List ℕ → Option ℕ
last_five ret = if ltb (length ret) 5 then none else some (length ret - 5)

-- '#' or '$' before a NUL.
unfoldable pub has_prompt : List ℕ → Bool
has_prompt [] = false
has_prompt (c ∷ cs) =
    let rest = has_prompt cs in
    if c == 0 then false else (if c == 35 || c == 36 then true else rest)

abbrev pub prompt_at : Option ℕ → List ℕ → Bool
unfolding has_prompt
prompt_at none ret = false
prompt_at (some n) ret = has_prompt (drop n ret)

module _ (P : Platform) (i local_id remote_id wait_times : ℕ) where
  -- A packet that was taken from the queue `q`; bytes outside its array are a fault.
  abbrev pub append_packet :
      Apacket → P.Queue → Aclient P → Listening → Session P → Option (Listening × Session P)
  append_packet p q a l s =
      let ret = l.ret ++ take p.msg.data_length p.payload in
      let async = is_type a.biptype shell_async in
      let t = update_client P i (λ c. record c { ptrlist = q }) s.transport in
      if ltb (length p.payload) p.msg.data_length then none else elim (put_apacket P (some p) t) [
        | none ↦ none
        | some (_, t') ↦ some (
          record l {
            ret = ret;
            is_add_char = async || l.is_add_char;
            endptr = if async then last_five ret else l.endptr;
            maxtime = s.clock + wait_times;
          },
          record s { transport = t' },
        )
      ]

  -- Nothing in the queue.
  abbrev pub nothing_there : Aclient P → Listening → Session P → Option (Listening × Session P)
  nothing_there a l s =
      if not (is_shell a.biptype)
      then some (record l { succ = true }, s)
      else (if l.is_add_char
          then some (record l { is_add_char = false; succ = prompt_at l.endptr l.ret || l.succ }, s)
          else (if l.succ
              then some (l, s)
              else elim (wait P i wait_times s) [ none ↦ none | some (_, s') ↦ some (l, s') ]))

  unfoldable pub round : Listening → Session P → Option (Listening × Session P)
  unfolding put_apacket send_ready wait prompt_at
  round l s = elim (lift P (send_ready P local_id remote_id) s) [
    | none ↦ none
    | some (_, s1) ↦ elim (slot P s1.transport.userlist i) [
      | none ↦ none
      | some a ↦ elim (P.pop a.ptrlist) [
        | some (p, q) ↦ append_packet p q a l s1
        | none ↦ nothing_there a l s1
      ]
    ]
  ]

  -- The time is up, where there is a limit.
  abbrev pub with_limit : Listening → Session P → Listening
  with_limit l s = record l { succ = not (wait_times == 0) && ltb l.maxtime s.clock || l.succ }

  unfoldable pub listen : ℕ → Listening → Session P → Option (Listening × Session P)
  unfolding round
  listen zero l s = none
  listen (suc fuel) l s = if s.transport.kicked then some (l, s) else elim (round l s) [
    | none ↦ none
    | some (l', s') ↦ if s'.transport.kicked then some (l', s') else elim (with_limit l' s').succ [
      | true ↦ some (with_limit l' s', s')
      | false ↦ listen fuel (with_limit l' s') s'
    ]
  ]

-- The result of the call, and the caller's string.
unfoldable pub shell_recv : (P : Platform) → ℕ → List ℕ → ℕ → ℕ → Exec (Session P) (ℤ × List ℕ)
unfolding client_get_ptr listen
shell_recv P fuel ret local_id wait_times s = elim (client_get_ptr P local_id s.transport) [
  | none ↦ some ((negsuc 0, ret), s)
  | some (i, a) ↦
      elim (listen P i local_id a.remote_id wait_times fuel
        (record {
          ret = ret;
          is_add_char = false;
          endptr = some 0;
          maxtime = s.clock + wait_times;
          succ = false;
        })
        s) [ none ↦ none | some (l, s') ↦ some ((pos 0, l.ret), s') ]
]
