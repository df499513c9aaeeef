-- ===== src/SocketPair.antt =====
-- The pair of packet queues between the threads of a transport (adb_func.cpp, bip_buffer_* and
-- adb_socketpair to adb_close). `stuck` is a loop that spins until another thread acts.
pub mod Fifo
pub mod Tests
use adb_server_project.Common.{
  ℕ, zero, suc, ◌+◌, ◌≡◌, Bool, true, false, Option, none, some, if◌then◌else◌, ◌==◌,
}
use adb_server_project.Common.Exec.{Exec, pure, stuck, ◌>>=◌}
use adb_server_project.Packet.{Apacket, Status, success, failure}
use adb_server_project.Platform.{Platform}

-- `ptrlist` is null once bip_buffer_done has freed the queue.
pub record BipBufferRec (P : Platform) : Type 0 where
  pub fdin : ℕ
  pub fdout : ℕ
  pub closed : Bool
  pub ptrlist : Option P.Queue

pub record SocketPairRec (P : Platform) : Type 0 where
  pub a2b_bip : BipBufferRec P
  pub b2a_bip : BipBufferRec P
  pub a_fd : ℕ
  pub used : ℕ

module _ (P : Platform) where
  pub bip_buffer_init : BipBufferRec P
  bip_buffer_init = record { fdin = 0; fdout = 0; closed = false; ptrlist = some P.new_queue }

  abbrev pub bip_buffer_close : BipBufferRec P → BipBufferRec P
  bip_buffer_close bip = record bip { closed = true }

  abbrev pub bip_buffer_done : BipBufferRec P → BipBufferRec P
  bip_buffer_done bip = record bip { ptrlist = none }

  -- One round of `while (!succ)`: a failed push goes round again in the same state.
  pub bip_buffer_write : Apacket → Exec (BipBufferRec P) Status
  bip_buffer_write scr bip = elim bip.ptrlist [
    | none ↦ pure failure bip
    | some q ↦ if bip.closed then pure failure bip else elim (P.push scr q) [
      | none ↦ none
      | some r ↦ pure success (record bip { ptrlist = some r })
    ]
  ]

  -- What was read, or -1.
  pub bip_buffer_read : Exec (BipBufferRec P) (Option Apacket)
  bip_buffer_read bip = elim bip.ptrlist [
    | none ↦ pure none bip
    | some q ↦ if bip.closed then pure none bip else elim (P.pop q) [
      | none ↦ none
      | some (p, r) ↦ pure (some p) (record bip { ptrlist = some r })
    ]
  ]

  pub adb_socketpair : SocketPairRec P
  unfolding bip_buffer_init
  adb_socketpair = record {
    a2b_bip = record bip_buffer_init { fdin = 1; fdout = 2 };
    b2a_bip = record bip_buffer_init { fdin = 2; fdout = 1 };
    a_fd = 100;
    used = 2;
  }

  -- Both directions are closed, and freed once the transport has set `used` to 0.
  unfoldable pub fh_socketpair_close : SocketPairRec P → SocketPairRec P
  fh_socketpair_close pair =
      if pair.used == 0
      then record pair {
        b2a_bip = bip_buffer_done (bip_buffer_close pair.b2a_bip);
        a2b_bip = bip_buffer_done (bip_buffer_close pair.a2b_bip);
        a_fd = 0;
      }
      else record pair {
        b2a_bip = bip_buffer_close pair.b2a_bip;
        a2b_bip = bip_buffer_close pair.a2b_bip;
      }

  -- An operation on one direction of the pair.
  abbrev pub on_a2b : {A : Type 0} → Exec (BipBufferRec P) A → Exec (SocketPairRec P) A
  on_a2b m pair = elim (m pair.a2b_bip) [
    | none ↦ none
    | some (a, bip) ↦ some (a, record pair { a2b_bip = bip })
  ]

  abbrev pub on_b2a : {A : Type 0} → Exec (BipBufferRec P) A → Exec (SocketPairRec P) A
  on_b2a m pair = elim (m pair.b2a_bip) [
    | none ↦ none
    | some (a, bip) ↦ some (a, record pair { b2a_bip = bip })
  ]

  pub fh_socketpair_read : ℕ → Exec (SocketPairRec P) (Option Apacket)
  unfolding bip_buffer_read
  fh_socketpair_read f pair =
      (if f == pair.a_fd then on_b2a bip_buffer_read else on_a2b bip_buffer_read) pair

  pub fh_socketpair_write : ℕ → Apacket → Exec (SocketPairRec P) Status
  unfolding bip_buffer_write
  fh_socketpair_write f scr pair =
      (if f == pair.a_fd then on_a2b (bip_buffer_write scr) else on_b2a (bip_buffer_write scr)) pair

  -- The pointer to the pair may be null.
  abbrev pub on_pair :
      {A : Type 0} → A → Exec (SocketPairRec P) A → Exec (Option (SocketPairRec P)) A
  on_pair refused m none = pure refused none
  on_pair refused m (some pair) = elim (m pair) [
    | none ↦ none
    | some (a, pair') ↦ some (a, some pair')
  ]

  unfoldable pub adb_read : ℕ → Exec (Option (SocketPairRec P)) (Option Apacket)
  unfolding fh_socketpair_read
  adb_read f = on_pair none (fh_socketpair_read f)

  unfoldable pub adb_write : ℕ → Apacket → Exec (Option (SocketPairRec P)) Status
  unfolding fh_socketpair_write
  adb_write f scr = on_pair failure (fh_socketpair_write f scr)

  unfoldable pub adb_close : ℕ → Exec (Option (SocketPairRec P)) Status
  unfolding fh_socketpair_close
  adb_close f none = pure failure none
  adb_close f (some pair) = pure success (some (fh_socketpair_close pair))
