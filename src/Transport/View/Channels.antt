-- ===== src/Transport/View/Channels.antt =====
-- The table of channels and its abstract view: the same places are found and changed.
use adb_server_project.Common.{
  ℕ, zero, suc, ◌-◌, ◌≡◌, refl, List, [], ◌∷◌, Option, none, some, arith, ap,
}
use adb_server_project.Platform.{Platform, IsFifo}
use adb_server_project.Transport.State.{Transport, Aclient, client_id_base}
use adb_server_project.Transport.Clients.{slot, if_used, client_get_ptr, update_list}
use adb_server_project.Transport.View.{
  Channel, place, used_place, place_of, change, channel, channels_of,
}

module _ (P : Platform) (fifo : IsFifo P) where
  abbrev seen : Option (Aclient P) → Option Channel
  seen none = none
  seen (some a) = some (channel P fifo a)

  place-channels_of :
      (l : List (Option (Aclient P))) (i : ℕ) → place (channels_of P fifo l) i ≡ seen (slot P l i)
  place-channels_of [] i = refl
  place-channels_of (none ∷ l) zero = refl
  place-channels_of (some a ∷ l) zero = refl
  place-channels_of (none ∷ l) (suc i) = place-channels_of l i
  place-channels_of (some a ∷ l) (suc i) = place-channels_of l i

  -- The index of a pointer.
  abbrev pub index : Option (ℕ × Aclient P) → Option ℕ
  index none = none
  index (some (i, a)) = some i

  used_place-seen : (i : ℕ) (o : Option (Aclient P)) → used_place i (seen o) ≡ index (if_used P i o)
  used_place-seen i none = refl
  used_place-seen i (some a) = ground arith

  pub place_of-channels_of :
      (id : ℕ) (t : Transport P)
      → place_of id (channels_of P fifo t.userlist) ≡ index (client_get_ptr P id t)
  unfolding client_get_ptr
  place_of-channels_of id t = ground (
    arith,
    place-channels_of t.userlist (id - client_id_base),
    used_place-seen (id - client_id_base) (slot P t.userlist (id - client_id_base)),
  )

  pub change-channels_of :
      (i : ℕ) (f : Aclient P → Aclient P) (g : Channel → Channel) (l : List (Option (Aclient P)))
      → ((a : Aclient P) → slot P l i ≡ some a → channel P fifo (f a) ≡ g (channel P fifo a))
      → channels_of P fifo (update_list P i f l) ≡ change i g (channels_of P fifo l)
  change-channels_of i f g [] h = refl
  change-channels_of zero f g (none ∷ l) h = refl
  change-channels_of zero f g (some a ∷ l) h = ap (λ c. some c ∷ channels_of P fifo l) (h a refl)
  change-channels_of (suc i) f g (none ∷ l) h = ap (◌∷◌ none) (change-channels_of i f g l h)
  change-channels_of (suc i) f g (some a ∷ l) h =
      ap (◌∷◌ (some (channel P fifo a))) (change-channels_of i f g l h)
