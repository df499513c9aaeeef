-- ===== src/Transport/Clients.antt =====
-- The table of user channels: client_get_ptr, client_get_id, client_free_id, client_init,
-- client_clear, free_ctrol, and the transport's own Clear.
pub mod Lookup
pub mod Allocate
use adb_server_project.Common.{
  ℕ, zero, suc, ◌+◌, ◌-◌, ◌^◌, ◌≡◌, Bool, true, false, List, [], ◌∷◌, Option, none, some,
  if◌then◌else◌, ◌==◌, ltb, get_elem?, set, length,
}
use adb_server_project.Common.Int.{ℤ, pos, ◌+ℤ◌}
use adb_server_project.Common.Exec.{Exec, pure, modify, stuck, ◌>>=◌, ◌>>◌}
use adb_server_project.Packet.{Apacket, Status, success, failure}
use adb_server_project.Platform.{Platform}
use adb_server_project.SocketPair.{adb_close}
use adb_server_project.Transport.State.{
  Transport, Aclient, BipbufferType, close, new_aclient, client_id_base, client_list_max,
  TransportType, usb_type,
}
use adb_server_project.Transport.Packets.{put_apacket}

module _ (P : Platform) where
  -- An empty place, or an index out of range, is null.
  abbrev pub slot : List (Option (Aclient P)) → ℕ → Option (Aclient P)
  slot [] i = none
  slot (a ∷ l) zero = a
  slot (a ∷ l) (suc i) = slot l i

  abbrev pub if_used : ℕ → Option (Aclient P) → Option (ℕ × Aclient P)
  if_used i none = none
  if_used i (some a) = if a.user then some (i, a) else none

  -- The index of the channel and its state. An id is an `int`: from 2 ^ 31 on it is negative.
  unfoldable pub client_get_ptr : ℕ → Transport P → Option (ℕ × Aclient P)
  client_get_ptr id t =
      if ltb id client_id_base
      then none
      else (if ltb id (2 ^ 31)
          then if_used (id - client_id_base) (slot t.userlist (id - client_id_base))
          else none)

  -- What the code writes through an aclientPtr.
  abbrev pub update_list :
      ℕ → (Aclient P → Aclient P) → List (Option (Aclient P)) → List (Option (Aclient P))
  update_list i f [] = []
  update_list zero f (none ∷ l) = none ∷ l
  update_list zero f (some a ∷ l) = some (f a) ∷ l
  update_list (suc i) f (a ∷ l) = a ∷ update_list i f l

  abbrev pub update_client : ℕ → (Aclient P → Aclient P) → Transport P → Transport P
  update_client i f t = record t { userlist = update_list i f t.userlist }

  abbrev pub notify : ℕ → Aclient P → Aclient P
  notify n a = record a { count = a.count +ℤ pos n }

  -- `while (a->ptrlist.pop(p)) put_apacket(p)`, with a bound on the packets in the queue.
  unfoldable pub drain : ℕ → P.Queue → Exec (Transport P) P.Queue
  unfolding put_apacket
  drain zero q t = none
  drain (suc fuel) q t = elim (P.pop q) [
    | none ↦ some (q, t)
    | some (p, rest) ↦ elim (put_apacket P (some p) t) [
      | none ↦ none
      | some (_, t') ↦ drain fuel rest t'
    ]
  ]

  -- bip_apacke_del_all frees the packet that a read has left over.
  abbrev pub free_last : Option Apacket → Transport P → Transport P
  free_last none t = t
  free_last (some p) t = record t { frees = suc t.frees }

  -- The channel's packets go, and its semaphore starts anew; returns the cleared channel.
  unfoldable pub client_clear : ℕ → Aclient P → Exec (Transport P) (Aclient P)
  unfolding drain
  client_clear fuel a t = elim (drain fuel a.ptrlist (free_last a.last_apacket t)) [
    | none ↦ none
    | some (q, t') ↦ some (record a { last_apacket = none; ptrlist = q; count = pos 0 }, t')
  ]

  pub client_init : ℕ → Aclient P → Exec (Transport P) (Aclient P)
  unfolding client_clear
  client_init fuel a = do
    b ← client_clear fuel a
    pure (record b {
      user = false;
      biptype = close;
      connected = false;
      remote_id = 0;
      local_id = 0;
      closing = false;
    })

  -- The loop of client_get_id from place `i` on: the first null or unused place.
  pub data Free : Type 0 where
    full : Free
    unused : ℕ → Aclient P → Free
    unset : ℕ → Free

  pub find_free : ℕ → List (Option (Aclient P)) → Free
  find_free i [] = full
  find_free i (none ∷ l) = unset i
  find_free i (some a ∷ l) = if a.user then find_free (suc i) l else unused i a

  -- 0 where all channels are in use.
  pub client_get_id : ℕ → Exec (Transport P) ℕ
  unfolding find_free client_init
  client_get_id fuel t = elim (find_free 0 t.userlist) [
    | full ↦ some (0, t)
    | unset i ↦ some (
      client_id_base + i,
      record t {
        userlist =
            set t.userlist i
              (some (record (new_aclient P) { user = true; local_id = client_id_base + i }));
      },
    )
    | unused i a ↦ elim (client_init fuel a t) [
      | none ↦ none
      | some (b, t') ↦ some (
        client_id_base + i,
        record t' {
          userlist =
              set t'.userlist i (some (record b { user = true; local_id = client_id_base + i }));
        },
      )
    ]
  ]

  pub client_free_id : ℕ → ℕ → Exec (Transport P) (Unit {0})
  unfolding client_init ◌+ℤ◌
  client_free_id fuel id t =
      if ltb id client_id_base
      then pure tt t
      else (if ltb id (2 ^ 31)
          then elim (slot t.userlist (id - client_id_base)) [
            | none ↦ pure tt t
            | some a ↦ elim (client_init fuel a t) [
              | none ↦ none
              | some (b, t') ↦ some (
                tt,
                record t' { userlist = set t'.userlist (id - client_id_base) (some (notify 1 b)) },
              )
            ]
          ]
          else pure tt t)

  -- free_ctrol: every user of a channel is woken, and loses it.
  pub wake_users : List (Option (Aclient P)) → List (Option (Aclient P))
  unfolding ◌+ℤ◌
  wake_users [] = []
  wake_users (none ∷ l) = none ∷ wake_users l
  wake_users (some a ∷ l) =
      some (if a.user then notify 1 (record a { user = false }) else a) ∷ wake_users l

  unfoldable pub free_ctrol : Transport P → Transport P
  unfolding wake_users
  free_ctrol t = record t { userlist = wake_users t.userlist }

  unfoldable pub remote_usb_clear : Transport P → Transport P
  unfolding adb_close ◌+ℤ◌
  remote_usb_clear t = elim (adb_close P t.fd t.pair) [
    | none ↦ t
    | some (_, pair') ↦ record t {
      kicked = true;
      pair = pair';
      d_read_ctrol = t.d_read_ctrol +ℤ pos 1;
      d_write_ctrol = t.d_write_ctrol +ℤ pos 1;
    }
  ]

  -- Clear: the device is kicked out, both ends of the pair are closed, and all users are woken.
  unfoldable pub clear : Transport P → Transport P
  unfolding remote_usb_clear free_ctrol
  clear t = free_ctrol (elim t.kind [ usb_type ↦ remote_usb_clear t | _ ↦ t ])
