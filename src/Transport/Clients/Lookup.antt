-- ===== src/Transport/Clients/Lookup.antt =====
-- client_get_ptr and writes through the pointer that it returns.
use adb_server_project.Common.{
  if-true, ◌-◌, ◌^◌, ◌∙◌, inr, inl, ltb, Bool-cases, ℕ, zero, suc, ◌+◌, ◌≡◌, refl, ◌≢◌, true, List,
  [], ◌∷◌, Option, none, some, arith, ap,
}
use adb_server_project.Platform.{Platform}
use adb_server_project.Transport.State.{Transport, Aclient, client_id_base}
use adb_server_project.Transport.Clients.{slot, client_get_ptr, update_list}

module _ (P : Platform) where
  -- A pointer that client_get_ptr returns is to the channel with that id, and it is in use.
  pub client_get_ptr-some :
      (id i : ℕ) (a : Aclient P) (t : Transport P)
      → client_get_ptr P id t ≡ some (i, a)
      → (id ≡ client_id_base + i) × (slot P t.userlist i ≡ some a) × (a.user ≡ true)
  unfolding client_get_ptr
  client_get_ptr-some id i a t e = ground arith

  -- A channel in the same place and in use is found under the same id.
  pub client_get_ptr-slot :
      (id i : ℕ) (a b : Aclient P) (t u : Transport P)
      → client_get_ptr P id t ≡ some (i, a)
      → slot P u.userlist i ≡ some b
      → b.user ≡ true
      → client_get_ptr P id u ≡ some (i, b)
  unfolding client_get_ptr
  client_get_ptr-slot id i a b t u e there used =
      let place : id - client_id_base ≡ i = omega (arith, (client_get_ptr-some id i a t e).0) in
      let found : slot P u.userlist (id - client_id_base) ≡ some b =
        ap (slot P u.userlist) place ∙ there in
      elim (Bool-cases (ltb id client_id_base)) [
        | inl low ↦ let never : none ≡ some (i, a) = rw (low, client_get_ptr) at e in cc
        | inr above ↦ elim (Bool-cases (ltb id (2 ^ 31))) [
          | inr negative ↦
              let never : none ≡ some (i, a) = rw (above, negative, client_get_ptr) at e in cc
          | inl below ↦
              rw (above, below, found, client_get_ptr)
                (if-true b.user _ _ used ∙ ap (λ k. some (k, b)) place)
        ]
      ]

  pub slot-update_list_self :
      (i : ℕ) (f : Aclient P → Aclient P) (l : List (Option (Aclient P))) (a : Aclient P)
      → slot P l i ≡ some a
      → slot P (update_list P i f l) i ≡ some (f a)
  slot-update_list_self i f [] a e = cc
  slot-update_list_self zero f (none ∷ l) a e = cc
  slot-update_list_self zero f (some b ∷ l) a e = ground arith
  slot-update_list_self (suc i) f (b ∷ l) a e = slot-update_list_self i f l a e

  pub slot-update_list_ne :
      (i j : ℕ) (f : Aclient P → Aclient P) (l : List (Option (Aclient P)))
      → i ≢ j
      → slot P (update_list P i f l) j ≡ slot P l j
  slot-update_list_ne i j f [] ne = refl
  slot-update_list_ne zero zero f (b ∷ l) ne = absurd (ne refl)
  slot-update_list_ne zero (suc j) f (none ∷ l) ne = refl
  slot-update_list_ne zero (suc j) f (some b ∷ l) ne = refl
  slot-update_list_ne (suc i) zero f (b ∷ l) ne = refl
  slot-update_list_ne (suc i) (suc j) f (b ∷ l) ne =
      slot-update_list_ne i j f l (λ e. ne (ap suc e))
