-- ===== src/Transport/View.antt =====
-- What handle_packet promises, on an abstract transport: channels with an inbox each, and the messages
-- for the device. Packet memory, the pool, the pair and the locks are gone.
pub mod Channels
pub mod Refine
pub mod Commands
pub mod Deliver
pub mod Whole
use adb_server_project.Common.{
  ℕ, zero, suc, ◌+◌, ◌-◌, ◌^◌, ◌≡◌, refl, Bool, true, false, List, [], ◌∷◌, ◌++◌, map, Option, none,
  some, if◌then◌else◌, ◌==◌, ltb, take, length,
}
use adb_server_project.Common.Int.{ℤ, pos, ◌+ℤ◌}
use adb_server_project.Packet.{Apacket, max_payload}
use adb_server_project.Banner.{ConnectionState, Quals, offline, device, parse_banner}
use adb_server_project.Auth.{auth_token, adb_auth_nextkey, adb_auth_get_userkey}
use adb_server_project.Platform.{Platform, IsFifo}
use adb_server_project.Transport.State.{Transport, Aclient, BipbufferType, close, client_id_base}
use adb_server_project.Transport.Handle.{
  Command, sync, cnxn, auth, opens, okay, clse, wrte, unknown, is_state, command_of,
}
use adb_server_project.Transport.Wire.{
  Wire, wire, outgoing, ready_wires, close_wires, connect_wire, signed_wires, public_wires,
}

pub record Channel : Type 0 where
  pub user : Bool
  pub biptype : BipbufferType
  pub local_id : ℕ
  pub remote_id : ℕ
  pub connected : Bool
  pub closing : Bool
  pub left_over : Option Apacket
  pub inbox : List Apacket
  pub count : ℤ

pub record View : Type 0 where
  pub channels : List (Option Channel)
  pub state : ConnectionState
  pub online : Bool
  pub quals : Quals
  pub key : Option ℕ
  pub sent : List Wire

-- Nothing, or the channel in a place of the table.
abbrev pub place : List (Option Channel) → ℕ → Option Channel
place [] i = none
place (c ∷ l) zero = c
place (c ∷ l) (suc i) = place l i

abbrev pub used_place : ℕ → Option Channel → Option ℕ
used_place i none = none
used_place i (some c) = if c.user then some i else none

-- The place of the channel with an id, if it is in use.
abbrev pub place_of : ℕ → List (Option Channel) → Option ℕ
place_of id l =
    if ltb id client_id_base
    then none
    else (if ltb id (2 ^ 31)
        then used_place (id - client_id_base) (place l (id - client_id_base))
        else none)

abbrev pub change : ℕ → (Channel → Channel) → List (Option Channel) → List (Option Channel)
change i f [] = []
change zero f (none ∷ l) = none ∷ l
change zero f (some c ∷ l) = some (f c) ∷ l
change (suc i) f (c ∷ l) = c ∷ change i f l

abbrev pub signalled : Channel → Channel
signalled c = record c { count = c.count +ℤ pos 1 }

abbrev pub send : List Wire → View → View
send ws v = record v { sent = v.sent ++ ws }

abbrev pub on_channel : ℕ → (Channel → Channel) → View → View
on_channel i f v = record v { channels = change i f v.channels }

abbrev pub if_online : View → List Wire → List Wire
if_online v ws = if v.online then ws else []

module _ (P : Platform) where
  -- The answer to a token: the signature by the next key, or the public key once all are used up.
  abbrev pub auth_wires : Option ℕ → Apacket → List Wire
  auth_wires none p = public_wires (adb_auth_get_userkey P.load_user_key max_payload)
  auth_wires (some k) p = signed_wires (P.rsa_sign k (take p.msg.data_length p.payload))

  -- A banner makes the transport online; one that was not online yet answers, but to a plain device.
  abbrev pub connect : Bool → ConnectionState × Quals → View → View
  connect was_online (s, q) v =
      let v' = record v { state = s; quals = q; online = true } in
      if was_online then v' else (if is_state s device then v' else send (connect_wire ∷ []) v')

  abbrev pub respond_cnxn : Option (ConnectionState × Quals) → View → Option View
  respond_cnxn none v = none
  respond_cnxn (some banner) v =
      some (connect (if is_state v.state offline then v.online else false) banner v)

  abbrev respond_okay : Option ℕ → Apacket → View → View
  respond_okay none p v = send (if_online v (close_wires 0 p.msg.arg0)) v
  respond_okay (some i) p v =
      on_channel i (λ c. signalled (record c { remote_id = p.msg.arg0; connected = true }))
        (send (if_online v (ready_wires p.msg.arg1 p.msg.arg0)) v)

  abbrev pub closed_channel : Option ℕ → View → View
  closed_channel none v = v
  closed_channel (some i) v =
      on_channel i (λ c. signalled (record c { biptype = close; remote_id = 0; connected = false }))
        v

  abbrev pub respond_wrte : Option ℕ → ℕ → Apacket → View → View
  respond_wrte none remote p v = send (close_wires 0 remote) v
  respond_wrte (some i) remote p v =
      on_channel i (λ c. signalled (record c { inbox = c.inbox ++ p ∷ []; remote_id = remote })) v

  -- What a packet from the device does; none where its banner is not a C string.
  unfoldable pub respond : Command → Apacket → View → Option View
  respond sync p v = some (
      if p.msg.arg0 == 0
      then send (wire p ∷ []) (record v { state = offline; online = false })
      else send (wire p ∷ connect_wire ∷ []) v)
  respond cnxn p v = respond_cnxn (parse_banner p.payload v.quals) v
  respond auth p v = some (
      if p.msg.arg0 == auth_token
      then (let key = adb_auth_nextkey P.key_list v.key in
          send (auth_wires key p) (record v { key = key }))
      else v)
  respond opens p v = some v
  respond okay p v = some (respond_okay (place_of p.msg.arg1 v.channels) p v)
  respond clse p v = some (
      closed_channel (place_of p.msg.arg1 v.channels)
        (send (if_online v (close_wires 0 p.msg.arg0)) v))
  respond wrte p v =
      some (if v.online then respond_wrte (place_of p.msg.arg1 v.channels) p.msg.arg0 p v else v)
  respond unknown p v = some v

module _ (P : Platform) (fifo : IsFifo P) where
  abbrev pub channel : Aclient P → Channel
  channel a = record {
    user = a.user;
    biptype = a.biptype;
    local_id = a.local_id;
    remote_id = a.remote_id;
    connected = a.connected;
    closing = a.closing;
    left_over = a.last_apacket;
    inbox = fifo.contents a.ptrlist;
    count = a.count;
  }

  abbrev pub channels_of : List (Option (Aclient P)) → List (Option Channel)
  channels_of [] = []
  channels_of (none ∷ l) = none ∷ channels_of l
  channels_of (some a ∷ l) = some (channel a) ∷ channels_of l

  -- The abstract transport that a transport stands for.
  abbrev pub view : Transport P → View
  view t = record {
    channels = channels_of t.userlist;
    state = t.connection_state;
    online = t.online;
    quals = t.quals;
    key = t.key;
    sent = outgoing P fifo t;
  }
