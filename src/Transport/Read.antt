-- ===== src/Transport/Read.antt =====
-- Catransport::client_read: the bytes of a channel's packets, one packet after another, whatever the
-- lengths that the caller asks for. A packet that is not read up is kept in the channel.
pub mod Stream
pub mod Turns
pub mod Loop
pub mod Bytes
pub mod Delivery
use adb_server_project.Common.{
  ℕ, zero, suc, ◌+◌, ◌-◌, ◌≡◌, Bool, true, false, ◌&&◌, ◌||◌, not, List, [], ◌∷◌, ◌++◌, Option,
  none, some, if◌then◌else◌, ◌==◌, ltb, take, drop, length,
}
use adb_server_project.Common.Int.{ℤ, pos, negsuc}
use adb_server_project.Common.Exec.{Exec, pure, modify, ◌>>=◌, ◌>>◌}
use adb_server_project.Packet.{Apacket}
use adb_server_project.Platform.{Platform}
use adb_server_project.Transport.State.{Transport, Aclient, close}
use adb_server_project.Transport.Packets.{put_apacket}
use adb_server_project.Transport.Send.{send_ready}
use adb_server_project.Transport.Clients.{slot, update_client}
use adb_server_project.Transport.Session.{Session, lift, wait}
use adb_server_project.Transport.Users.{is_type}

-- The loop's variables: retLastApacket, readlen, length, what was copied so far, and maxtimes.
pub record Reading : Type 0 where
  pub last : Option Apacket
  pub readlen : ℕ
  pub length_so_far : ℕ
  pub copied : List ℕ
  pub maxtimes : ℕ

-- A packet whose bytes are all unread.
abbrev pub unread : Apacket → Apacket
unread p = record p { ptr = some 0; len = p.msg.data_length }

-- Before the loop, a packet that was never read from is prepared.
abbrev pub prepared : Option Apacket → Option Apacket
prepared none = none
prepared (some p) = elim p.ptr [ none ↦ some (unread p) | some off ↦ some p ]

module _ (P : Platform) (i local_id remote_id wait_times : ℕ) where
  abbrev pub set_last : Option Apacket → Session P → Session P
  set_last o s = record s {
    transport = update_client P i (λ a. record a { last_apacket = o }) s.transport;
  }

  abbrev pub clen : Apacket → Reading → ℕ
  clen p r = if ltb p.len r.readlen then p.len else r.readlen

  -- The copy out of the kept packet; bytes outside its array are a fault.
  abbrev pub copy_part : Apacket → Reading → Session P → Option (Reading × Session P)
  copy_part p r s = elim p.ptr [
    | none ↦ none
    | some off ↦
        if ltb (length p.payload) (off + clen p r)
        then none
        else (let p' = record p { ptr = some (off + clen p r); len = p.len - clen p r } in
            some (
              record r {
                last = some p';
                readlen = r.readlen - clen p r;
                length_so_far = r.length_so_far + clen p r;
                copied = r.copied ++ take (clen p r) (drop off p.payload);
                maxtimes = s.clock + wait_times;
              },
              set_last (some p') s,
            ))
  ]

  -- The next packet of the channel becomes the kept one, or the user waits for one.
  abbrev pub next_packet : Reading → Session P → Option (Reading × Session P)
  next_packet r s = elim (slot P s.transport.userlist i) [
    | none ↦ none
    | some a ↦ elim (P.pop a.ptrlist) [
      | some (p, q) ↦ some (
        record r { last = some (unread p); maxtimes = s.clock + wait_times },
        record s {
          transport =
              update_client P i (λ c. record c { ptrlist = q; last_apacket = some (unread p) })
                s.transport;
        },
      )
      | none ↦ elim (wait P i wait_times s) [ none ↦ none | some (_, s') ↦ some (r, s') ]
    ]
  ]

  -- One turn of the loop.
  unfoldable pub turn : Reading → Session P → Option (Reading × Session P)
  unfolding put_apacket send_ready wait
  turn r s = elim r.last [
    | some p ↦
        if p.len == 0
        then elim (lift P (put_apacket P (some p)) s) [
          | none ↦ none
          | some (_, s') ↦
              some (record r { last = none; maxtimes = s.clock + wait_times }, set_last none s')
        ]
        else copy_part p r s
    | none ↦ elim (lift P (send_ready P local_id remote_id) s) [
      | none ↦ none
      | some (_, s') ↦ next_packet r s'
    ]
  ]

  -- The loop's condition; the channel itself is never deleted.
  abbrev pub goes_on : Reading → Session P → Bool
  goes_on r s =
      not (r.readlen == 0)
      && (elim (slot P s.transport.userlist i) [
        | none ↦ false
        | some a ↦ not (is_type a.biptype close)
      ]
          && not s.transport.kicked)

  abbrev pub timed_out : Reading → Session P → Bool
  timed_out r s = not (wait_times == 0) && ltb r.maxtimes s.clock

  unfoldable pub read_loop : ℕ → Reading → Session P → Option (Reading × Session P)
  unfolding turn
  read_loop zero r s = if goes_on r s then none else some (r, s)
  read_loop (suc fuel) r s =
      if goes_on r s
      then elim (turn r s) [
        | none ↦ none
        | some (r', s') ↦ if timed_out r' s' then some (r', s') else read_loop fuel r' s'
      ]
      else some (r, s)

-- The length that was read, or -1, and the bytes. The place is that of the aclient, none for null;
-- `space` says whether there is a buffer for the bytes.
unfoldable pub client_read :
    (P : Platform) → ℕ → Bool → ℕ → Option ℕ → ℕ → Exec (Session P) (ℤ × List ℕ)
unfolding read_loop
client_read P fuel space len none wait_times s = some ((negsuc 0, []), s)
client_read P fuel space len (some i) wait_times s =
    if space
    then elim (slot P s.transport.userlist i) [
      | none ↦ none
      | some a ↦
          elim (read_loop P i a.local_id a.remote_id wait_times fuel
            (record {
              last = prepared a.last_apacket;
              readlen = len;
              length_so_far = 0;
              copied = [];
              maxtimes = s.clock + wait_times;
            })
            (set_last P i a.local_id a.remote_id wait_times (prepared a.last_apacket) s)) [
              | none ↦ none
              | some (r, s') ↦ some ((pos r.length_so_far, r.copied), s')
            ]
    ]
    else some ((negsuc 0, []), s)
