-- ===== src/Transport/Wire.antt =====
-- What a device sees of a transport: the messages on their way to it. A sending operation on a running
-- transport returns, and adds its messages behind those that are on their way.
pub mod Send
pub mod Auth
use adb_server_project.Common.{
  ℕ, zero, suc, ◌+◌, ◌≤◌, ◌≡◌, refl, ◌≢◌, Bool, true, false, List, [], ◌∷◌, ◌++◌, map, Option, none,
  some, take, length, ◌∙◌, ap, sym, append-nil, append_assoc, ltb, ◌==◌, if◌then◌else◌,
}
use adb_server_project.Common.Exec.{Exec, ◌>>=◌, ◌>>◌}
use adb_server_project.CString.{codes}
use adb_server_project.Packet.{Apacket, a_okay, a_clse, a_cnxn, a_auth, a_version, max_payload}
use adb_server_project.Auth.{auth_signature, auth_rsapublickey}
use adb_server_project.Platform.{Platform, IsFifo}
use adb_server_project.SocketPair.{SocketPairRec}
use adb_server_project.SocketPair.Fifo.{queued, IsOpenPair}
use adb_server_project.Transport.State.{Transport, usb_type}

-- The part of a packet that goes over the wire, less its checksums.
pub record Wire : Type 0 where
  pub command : ℕ
  pub arg0 : ℕ
  pub arg1 : ℕ
  pub bytes : List ℕ

abbrev pub wire : Apacket → Wire
wire p = record {
  command = p.msg.command;
  arg0 = p.msg.arg0;
  arg1 = p.msg.arg1;
  bytes = take p.msg.data_length p.payload;
}

-- The receipt and the closing message, which nobody sends to the id 0.
abbrev pub ready_wires : ℕ → ℕ → List Wire
ready_wires local remote =
    if ltb 0 remote
    then record { command = a_okay; arg0 = local; arg1 = remote; bytes = [] } ∷ []
    else []

abbrev pub close_wires : ℕ → ℕ → List Wire
close_wires local remote =
    if ltb 0 remote
    then record { command = a_clse; arg0 = local; arg1 = remote; bytes = [] } ∷ []
    else []

-- The answers to an AUTH token.
abbrev pub signed_wires : Option (List ℕ) → List Wire
signed_wires none = []
signed_wires (some []) = []
signed_wires (some (b ∷ bs)) =
    record { command = a_auth; arg0 = auth_signature; arg1 = 0; bytes = b ∷ bs } ∷ []

abbrev pub public_wires : List ℕ × ℕ → List Wire
public_wires r =
    if r.1 == 0
    then []
    else record { command = a_auth; arg0 = auth_rsapublickey; arg1 = 0; bytes = r.0 } ∷ []

-- The host's own CNXN.
abbrev pub connect_wire : Wire
connect_wire = record {
  command = a_cnxn;
  arg0 = a_version;
  arg1 = max_payload;
  bytes = codes "host::" ++ 0 ∷ [];
}

module _ (P : Platform) (fifo : IsFifo P) where
  -- The messages for the device that the input thread has not yet taken.
  abbrev pub outgoing : Transport P → List Wire
  outgoing t = elim t.pair [ none ↦ [] | some pair ↦ map wire (queued P fifo pair.a2b_bip) ]

  -- A started USB transport whose device is there.
  pub record IsRunning (t : Transport P) : Type 0 where
    pub the_pair : SocketPairRec P
    pub has_pair : t.pair ≡ some the_pair
    pub open_pair : IsOpenPair P fifo the_pair
    pub socket : t.transport_socket ≡ the_pair.a_fd
    pub other_end : t.fd ≢ t.transport_socket
    pub not_kicked : t.kicked ≡ false
    pub is_usb : t.kind ≡ usb_type

  -- The fields that no sending operation touches.
  pub record IsFrame (t t' : Transport P) : Type 0 where
    pub same_users : t'.userlist ≡ t.userlist
    pub same_state : t'.connection_state ≡ t.connection_state
    pub same_online : t'.online ≡ t.online
    pub same_quals : t'.quals ≡ t.quals
    pub same_key : t'.key ≡ t.key
    pub same_error : t'.t_error ≡ t.t_error
    pub same_connects : t'.connect_count ≡ t.connect_count
    pub same_refs : t'.ref_count ≡ t.ref_count
    pub same_token : t'.sync_token ≡ t.sync_token

  pub IsFrame-refl : (t : Transport P) → IsFrame t t
  IsFrame-refl t = record {
    same_users = refl;
    same_state = refl;
    same_online = refl;
    same_quals = refl;
    same_key = refl;
    same_error = refl;
    same_connects = refl;
    same_refs = refl;
    same_token = refl;
  }

  pub IsFrame-trans : (t u v : Transport P) → IsFrame t u → IsFrame u v → IsFrame t v
  IsFrame-trans t u v a b = record {
    same_users = b.same_users ∙ a.same_users;
    same_state = b.same_state ∙ a.same_state;
    same_online = b.same_online ∙ a.same_online;
    same_quals = b.same_quals ∙ a.same_quals;
    same_key = b.same_key ∙ a.same_key;
    same_error = b.same_error ∙ a.same_error;
    same_connects = b.same_connects ∙ a.same_connects;
    same_refs = b.same_refs ∙ a.same_refs;
    same_token = b.same_token ∙ a.same_token;
  }

  -- A run that returns on a running transport, having sent these messages.
  pub record Sends {A : Type 0} (t : Transport P) (ws : List Wire) (r : Option (A × Transport P))
      : Type 0 where
    pub result : A
    pub after : Transport P
    pub returned : r ≡ some (result, after)
    pub running : IsRunning after
    pub sent : outgoing after ≡ outgoing t ++ ws
    pub frame : IsFrame t after

  -- Messages of a run, and of what is run behind it.
  pub Sends-bind :
      {A B : Type 0} (t : Transport P) (ws vs : List Wire) (m : Exec (Transport P) A)
      (f : A → Exec (Transport P) B)
      → Sends t ws (m t)
      → ((a : A) (u : Transport P) → IsRunning u → IsFrame t u → Sends u vs (f a u))
      → Sends t (ws ++ vs) ((m >>= f) t)
  Sends-bind t ws vs m f s k =
      let r = k s.result s.after s.running s.frame in
      record {
        result = r.result;
        after = r.after;
        returned = rw (s.returned, ◌>>=◌) r.returned;
        running = r.running;
        sent = r.sent ∙ ap (λ l. l ++ vs) s.sent ∙ append_assoc (outgoing t) ws vs;
        frame = IsFrame-trans t s.after r.after s.frame r.frame;
      }

  pub Sends-then :
      {A B : Type 0} (t : Transport P) (ws vs : List Wire) (m : Exec (Transport P) A)
      (n : Exec (Transport P) B)
      → Sends t ws (m t)
      → ((u : Transport P) → IsRunning u → IsFrame t u → Sends u vs (n u))
      → Sends t (ws ++ vs) ((m >> n) t)
  Sends-then t ws vs m n s k =
      let r = k s.after s.running s.frame in
      record {
        result = r.result;
        after = r.after;
        returned = rw (s.returned, ◌>>◌) r.returned;
        running = r.running;
        sent = r.sent ∙ ap (λ l. l ++ vs) s.sent ∙ append_assoc (outgoing t) ws vs;
        frame = IsFrame-trans t s.after r.after s.frame r.frame;
      }

  -- A run that changes nothing that the device or a user sees.
  pub Sends-quiet :
      {A : Type 0} (t t' : Transport P) (a : A)
      → IsRunning t'
      → outgoing t' ≡ outgoing t
      → IsFrame t t'
      → Sends t [] (some (a, t'))
  Sends-quiet t t' a h same frame = record {
    result = a;
    after = t';
    returned = refl;
    running = h;
    sent = same ∙ sym (append-nil (outgoing t));
    frame = frame;
  }
