-- ===== src/Transport/Clients/Allocate.antt =====
-- client_get_id hands out the first channel that nobody uses.
use adb_server_project.Common.{
  ℕ, zero, suc, ◌+◌, ◌<◌, ◌≡◌, refl, ◌≢◌, ◌⊎◌, inl, inr, true, false, List, [], ◌∷◌, Option, none,
  some, arith, length, set, ap, ◌∙◌, Bool-cases, if-true, if-false,
}
use adb_server_project.Common.Int.{pos}
use adb_server_project.Platform.{Platform, IsFifo}
use adb_server_project.Transport.State.{Transport, Aclient, close, new_aclient, client_id_base}
use adb_server_project.Transport.Clients.{
  slot, Free, full, unused, unset, find_free, client_get_id, client_init, client_clear, free_last,
}
use adb_server_project.Transport.Wire.{IsRunning}
use adb_server_project.Transport.Calls.Reset.{
  IsFresh, Leaves, drain-Leaves, drain-returns, free_last-users, free_last-IsRunning,
}

module _ (P : Platform) where
  slot-set_self :
      (l : List (Option (Aclient P))) (i : ℕ) (x : Option (Aclient P))
      → i < length l
      → slot P (set l i x) i ≡ x
  slot-set_self [] i x h = absurd (omega arith)
  slot-set_self (y ∷ l) zero x h = refl
  slot-set_self (y ∷ l) (suc i) x h = slot-set_self l i x (omega arith)

  slot-set_ne :
      (l : List (Option (Aclient P))) (i j : ℕ) (x : Option (Aclient P))
      → i ≢ j
      → slot P (set l i x) j ≡ slot P l j
  slot-set_ne [] i j x ne = refl
  slot-set_ne (y ∷ l) zero zero x ne = absurd (ne refl)
  slot-set_ne (y ∷ l) zero (suc j) x ne = refl
  slot-set_ne (y ∷ l) (suc i) zero x ne = refl
  slot-set_ne (y ∷ l) (suc i) (suc j) x ne = slot-set_ne l i j x (λ e. ne (ap suc e))

  -- The channels in the first `n` places are all in use.
  abbrev pub UsedBelow : ℕ → List (Option (Aclient P)) → Type 0
  UsedBelow n l = (j : ℕ) → j < n → (a : Aclient P) × (slot P l j ≡ some a) × (a.user ≡ true)

  used_first :
      (a : Aclient P) (l : List (Option (Aclient P))) (n : ℕ)
      → a.user ≡ true
      → UsedBelow n l
      → UsedBelow (suc n) (some a ∷ l)
  used_first a l n u h zero below = (a, refl, u)
  used_first a l n u h (suc j) below = h j (omega arith)

  -- A place that holds no channel, or one that nobody uses, behind used ones.
  abbrev pub IsFirstFree : ℕ → List (Option (Aclient P)) → Type 0
  IsFirstFree i l =
      (i < length l)
      × UsedBelow i l
      × ((slot P l i ≡ none) ⊎ ((a : Aclient P) × (slot P l i ≡ some a) × (a.user ≡ false)))

  abbrev Found : ℕ → List (Option (Aclient P)) → Free P → Type 0
  Found k l r =
      ((r ≡ full) × UsedBelow (length l) l)
      ⊎ ((i : ℕ) × (r ≡ unset (k + i)) × (i < length l) × UsedBelow i l × (slot P l i ≡ none))
      ⊎ ((i : ℕ) × (a : Aclient P) × (r ≡ unused (k + i) a)
          × (i < length l)
          × UsedBelow i l
          × (slot P l i ≡ some a)
          × (a.user ≡ false))

  find_free-Found : (k : ℕ) (l : List (Option (Aclient P))) → Found k l (find_free P k l)
  unfolding find_free
  find_free-Found k [] = inl (refl, λ j below. absurd (omega arith))
  find_free-Found k (none ∷ l) =
      inr (inl (0, ap unset (omega arith), omega arith, (λ j below. absurd (omega arith)), refl))
  find_free-Found k (some a ∷ l) = elim (Bool-cases a.user) [
    | inr free ↦ inr (
        inr (
          0,
          a,
          if-false a.user _ _ free ∙ ap (λ n. unused n a) (omega arith),
          omega arith,
          (λ j below. absurd (omega arith)),
          refl,
          free,
        ))
    | inl used ↦ elim (find_free-Found (suc k) l) [
      | inl (e, all) ↦ inl (if-true a.user _ _ used ∙ e, used_first a l (length l) used all)
      | inr (inl (i, e, inside, below, empty)) ↦ inr (
          inl (
            suc i,
            if-true a.user _ _ used ∙ e ∙ ap unset (omega arith),
            omega arith,
            used_first a l i used below,
            empty,
          ))
      | inr (inr (i, b, e, inside, below, there, free)) ↦ inr (
          inr (
            suc i,
            b,
            if-true a.user _ _ used ∙ e ∙ ap (λ n. unused n b) (omega arith),
            omega arith,
            used_first a l i used below,
            there,
            free,
          ))
    ]
  ]

module _ (P : Platform) (fifo : IsFifo P) where
  -- A channel handed out: in use, with its id, and otherwise as if it had never been used; the others
  -- are as they were.
  abbrev pub IsHandedOut : ℕ → List (Option (Aclient P)) → Transport P → Type 0
  IsHandedOut i l t =
      ((a : Aclient P) × (slot P t.userlist i ≡ some a)
        × (a.user ≡ true)
        × (a.local_id ≡ client_id_base + i)
        × IsFresh P fifo close a
        × (a.remote_id ≡ 0)
        × (a.connected ≡ false))
      × ((j : ℕ) → i ≢ j → slot P t.userlist j ≡ slot P l j)

  handed_out :
      (i : ℕ) (l : List (Option (Aclient P))) (a : Aclient P) (t : Transport P)
      → t.userlist ≡ set l i (some a)
      → i < length l
      → a.user ≡ true
      → a.local_id ≡ client_id_base + i
      → IsFresh P fifo close a
      → a.remote_id ≡ 0
      → a.connected ≡ false
      → IsHandedOut i l t
  handed_out i l a t e inside used id fresh unknown apart = (
    (
      a,
      ap (λ m. slot P m i) e ∙ slot-set_self P l i (some a) inside,
      used,
      id,
      fresh,
      unknown,
      apart,
    ),
    λ j ne. ap (λ m. slot P m j) e ∙ slot-set_ne P l i j (some a) ne,
  )

  -- On a running transport client_get_id returns 0 exactly where all channels of the table are in use,
  -- and changes nothing then. Otherwise it returns the id of the first place that is not in use; that
  -- channel is now in use, with this id, and fresh: its type is close, its inbox is empty, no packet is
  -- left over, it is neither connected nor closing, it has no id of the device and its semaphore no
  -- token; the other places are as they were. As much fuel as one more than the packets in each
  -- channel's queue is enough.
  pub client_get_id-first :
      (fuel : ℕ) (t : Transport P)
      → IsRunning P fifo t
      → ((i : ℕ) (a : Aclient P)
          → slot P t.userlist i ≡ some a
          → length (fifo.contents a.ptrlist) < fuel)
      → ((client_get_id P fuel t ≡ some (0, t)) × UsedBelow P (length t.userlist) t.userlist)
        ⊎ ((i : ℕ) × (t' : Transport P) × (client_get_id P fuel t ≡ some (client_id_base + i, t'))
            × IsFirstFree P i t.userlist
            × IsHandedOut i t.userlist t')
  unfolding client_get_id client_init client_clear
  client_get_id-first fuel t h enough = elim (find_free-Found P 0 t.userlist) [
    | inl (e, all) ↦ inl (rw (e, client_get_id) refl, all)
    | inr (inl (i, e, inside, below, empty)) ↦
        let e' : find_free P 0 t.userlist ≡ unset i = e ∙ ap unset (omega arith) in
        let a = record (new_aclient P) { user = true; local_id = client_id_base + i } in
        let t' = record t { userlist = set t.userlist i (some a) } in
        inr (
          i,
          t',
          rw (e', client_get_id) refl,
          (inside, below, inl empty),
          handed_out i t.userlist a t' refl inside refl refl
              (refl, fifo.contents_new, refl, refl, refl) refl refl,
        )
    | inr (inr (i, b, e, inside, below, there, free)) ↦
        let e' : find_free P 0 t.userlist ≡ unused i b = e ∙ ap (λ n. unused n b) (omega arith) in
        let t0 = free_last P b.last_apacket t in
        let ((q, t1), drained) =
          drain-returns P fifo fuel b.ptrlist t0 (free_last-IsRunning P fifo b.last_apacket t h)
            (enough i b there) in
        let (empty, same) : (fifo.contents q ≡ []) × (t1.userlist ≡ t0.userlist) =
          rw (drained, Leaves) at (drain-Leaves P fifo fuel b.ptrlist t0) in
        let a = record b {
          user = true;
          biptype = close;
          local_id = client_id_base + i;
          remote_id = 0;
          connected = false;
          closing = false;
          last_apacket = none;
          ptrlist = q;
          count = pos 0;
        } in
        let t' = record t1 { userlist = set t1.userlist i (some a) } in
        inr (
          i,
          t',
          rw (e', drained, client_get_id, client_init, client_clear) refl,
          (inside, below, inr (b, there, free)),
          handed_out i t.userlist a t'
              (ap (λ l. set l i (some a)) (same ∙ free_last-users P fifo b.last_apacket t)) inside
              refl refl (refl, empty, refl, refl, refl) refl refl,
        )
  ]
