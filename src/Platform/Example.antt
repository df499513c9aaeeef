-- ===== src/Platform/Example.antt =====
-- A platform whose queues are lists: what Platform and IsFifo ask for can be had.
use adb_server_project.Common.{
  ◌≡◌, refl, inl, inr, List, [], ◌∷◌, ◌++◌, ◌⊎◌, Option, none, some, replicate,
}
use adb_server_project.Packet.{Apacket}
use adb_server_project.Platform.{Platform, IsFifo}

abbrev pub pop_list : List Apacket → Option (Apacket × List Apacket)
pop_list [] = none
pop_list (p ∷ q) = some (p, q)

-- Key k signs a token by putting k before it.
abbrev pub list_platform : Platform
list_platform = record {
  Queue = List Apacket;
  new_queue = [];
  push = λ p q. some (q ++ p ∷ []);
  pop = pop_list;
  malloc_data = λ n. replicate 4096 0;
  rsa_sign = λ k token. some (k ∷ token);
  load_user_key = some (b'k' ∷ []);
  key_list = 11 ∷ 12 ∷ [];
}

abbrev pub list_platform-IsFifo : IsFifo list_platform
list_platform-IsFifo = record {
  contents = λ q. q;
  contents_new = refl;
  push_succeeds = λ p q. (q ++ p ∷ [], refl, refl);
  pop_first = λ q. first q;
}
  where
    first :
        (q : List Apacket)
        → ((q ≡ []) × (pop_list q ≡ none))
          ⊎ ((p : Apacket) × (r : List Apacket) × (q ≡ p ∷ r) × (pop_list q ≡ some (p, r)))
    first [] = inl (refl, refl)
    first (p ∷ q) = inr (p, q, refl, refl)
