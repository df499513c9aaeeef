-- ===== src/Auth/Keys.antt =====
-- The keys are offered one after another.
use adb_server_project.Common.{
  ℕ, zero, suc, ◌≡◌, refl, ◌≢◌, List, [], ◌∷◌, ◌++◌, Option, none, some, arith, length, ◌<◌, ap,
  append_assoc,
}
use adb_server_project.Auth.{adb_auth_nextkey, next_after, first_of_list}

-- No node stands twice in the list.
abbrev NotIn : ℕ → List ℕ → Type 0
NotIn k [] = Unit {0}
NotIn k (x ∷ xs) = (x ≢ k) × NotIn k xs

abbrev pub Distinct : List ℕ → Type 0
Distinct [] = Unit {0}
Distinct (k ∷ ks) = NotIn k ks × Distinct ks

-- The keys that handle_packet takes up on successive AUTH tokens, starting from `current`.
pub keys_tried : ℕ → List ℕ → Option ℕ → List ℕ
keys_tried zero keys current = []
keys_tried (suc n) keys current = elim (adb_auth_nextkey keys current) [
  | none ↦ []
  | some k ↦ k ∷ keys_tried n keys (some k)
]

NotIn-middle : (x k : ℕ) (pre post : List ℕ) → NotIn x (pre ++ k ∷ post) → k ≢ x
NotIn-middle x k [] post h = h.0
NotIn-middle x k (y ∷ pre) post h = NotIn-middle x k pre post h.1

next_after-middle :
    (k : ℕ) (pre post : List ℕ)
    → Distinct (pre ++ k ∷ post)
    → next_after (pre ++ k ∷ post) k ≡ first_of_list post
unfolding next_after
next_after-middle k [] post h = ground arith
next_after-middle k (x ∷ pre) post h =
    ground (arith, NotIn-middle x k pre post h.0, next_after-middle k pre post h.1)

nextkey-middle :
    (k : ℕ) (pre post : List ℕ)
    → Distinct (pre ++ k ∷ post)
    → adb_auth_nextkey (pre ++ k ∷ post) (some k) ≡ first_of_list post
unfolding adb_auth_nextkey
nextkey-middle k [] post h = next_after-middle k [] post h
nextkey-middle k (x ∷ pre) post h = next_after-middle k (x ∷ pre) post h

keys_tried_from :
    (n k : ℕ) (pre post : List ℕ)
    → Distinct (pre ++ k ∷ post)
    → length post < n
    → keys_tried n (pre ++ k ∷ post) (some k) ≡ post
unfolding keys_tried
keys_tried_from zero k pre post h enough = absurd (omega arith)
keys_tried_from (suc n) k pre [] h enough = rw (nextkey-middle k pre [] h, keys_tried) refl
keys_tried_from (suc n) k pre (j ∷ post) h enough =
    rw (nextkey-middle k pre (j ∷ post) h, keys_tried)
      (ap (◌∷◌ j)
        (rw (← shift) (keys_tried_from n j (pre ++ k ∷ []) post (rw shift h) (omega arith))))
  where
    shift : (pre ++ k ∷ []) ++ j ∷ post ≡ pre ++ k ∷ j ∷ post
    shift = append_assoc pre (k ∷ []) (j ∷ post)

-- From no key, successive calls of adb_auth_nextkey offer every loaded key exactly once, in the order
-- of the list, and then none: this ends after at most one call more than there are keys.
pub keys_tried-all :
    (n : ℕ) (keys : List ℕ) → Distinct keys → length keys < n → keys_tried n keys none ≡ keys
unfolding keys_tried adb_auth_nextkey
keys_tried-all zero keys h enough = absurd (omega arith)
keys_tried-all (suc n) [] h enough = refl
keys_tried-all (suc n) (k ∷ ks) h enough = ap (◌∷◌ k) (keys_tried_from n k [] ks h (omega arith))
