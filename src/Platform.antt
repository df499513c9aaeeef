-- ===== src/Platform.antt =====
-- What the transport takes from outside the repository: boost::lockfree::queue, the C heap, and the
-- RSA library with the key files.
pub mod Example
use adb_server_project.Common.{ℕ, ◌≡◌, ◌⊎◌, List, [], ◌∷◌, ◌++◌, Option, none, some}
use adb_server_project.Packet.{Apacket}

-- `push` is none where boost's push returns false, `pop` is none on an empty queue. `malloc_data n`
-- is what the n-th block from malloc holds. `key_list` are the nodes of the loaded private keys.
pub record Platform : Type 1 where
  pub Queue : Type 0
  pub new_queue : Queue
  pub push : Apacket → Queue → Option Queue
  pub pop : Queue → Option (Apacket × Queue)
  pub malloc_data : ℕ → List ℕ
  pub rsa_sign : ℕ → List ℕ → Option (List ℕ)
  pub load_user_key : Option (List ℕ)
  pub key_list : List ℕ

-- The documented behaviour of boost's queue: first in, first out; a push fails only where memory
-- runs out, which is left out here.
pub record IsFifo (P : Platform) : Type 0 where
  pub contents : P.Queue → List Apacket
  pub contents_new : contents P.new_queue ≡ []
  pub push_succeeds :
      (p : Apacket) (q : P.Queue)
      → (r : P.Queue) × (P.push p q ≡ some r) × (contents r ≡ contents q ++ p ∷ [])
  pub pop_first :
      (q : P.Queue)
      → ((contents q ≡ []) × (P.pop q ≡ none))
        ⊎ ((p : Apacket) × (r : P.Queue) × (contents q ≡ p ∷ contents r) × (P.pop q ≡ some (p, r)))
