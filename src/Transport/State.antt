-- ===== src/Transport/State.antt =====
-- The fields of Catransport and of a user's channel, aclient (Catransport.h), with the defaults of
-- their constructors. Flags that the code sets to 0 and 1 are Booleans; ids are 32-bit words.
use adb_server_project.Common.{ℕ, Bool, false, List, Option, none, replicate}
use adb_server_project.Common.Int.{ℤ, pos}
use adb_server_project.Packet.{Apacket}
use adb_server_project.Banner.{ConnectionState, Quals}
use adb_server_project.Platform.{Platform}
use adb_server_project.SocketPair.{SocketPairRec}

-- What a channel is open for.
pub data BipbufferType : Type 0 where
  close shell_sync shell_async file_sync forward : BipbufferType

pub data TransportType : Type 0 where
  usb_type local_type any_type host_type : TransportType

pub data TransportError : Type 0 where
  no_error device_offline un_device client_close : TransportError

abbrev pub client_list_max : ℕ
client_list_max = 32

abbrev pub client_id_base : ℕ
client_id_base = 100

-- `count` is the counter of the channel's semaphore.
pub record Aclient (P : Platform) : Type 0 where
  pub user : Bool
  pub biptype : BipbufferType
  pub local_id : ℕ
  pub remote_id : ℕ
  pub connected : Bool
  pub closing : Bool
  pub last_apacket : Option Apacket
  pub ptrlist : P.Queue
  pub count : ℤ

-- `usb` says that the handle is not null; `mallocs` and `frees` count the packets that were taken from
-- and given back to the C heap.
pub record Transport (P : Platform) : Type 0 where
  pub pair : Option (SocketPairRec P)
  pub fd : ℕ
  pub transport_socket : ℕ
  pub connect_count : ℕ
  pub ref_count : ℕ
  pub sync_token : ℕ
  pub connection_state : ConnectionState
  pub online : Bool
  pub kind : TransportType
  pub usb : Bool
  pub quals : Quals
  pub kicked : Bool
  pub key : Option ℕ
  pub userlist : List (Option (Aclient P))
  pub loop_to_use_apacket : P.Queue
  pub d_write_ctrol : ℤ
  pub d_read_ctrol : ℤ
  pub t_error : TransportError
  pub mallocs : ℕ
  pub frees : ℕ

module _ (P : Platform) where
  abbrev pub new_aclient : Aclient P
  new_aclient = record {
    user = false;
    biptype = close;
    local_id = 0;
    remote_id = 0;
    connected = false;
    closing = false;
    last_apacket = none;
    ptrlist = P.new_queue;
    count = pos 0;
  }

  -- The constructor, for a USB handle and the state that find_devices gives it.
  abbrev pub new_transport : Bool → ConnectionState → Transport P
  new_transport handle state = record {
    pair = none;
    fd = 0;
    transport_socket = 0;
    connect_count = 0;
    ref_count = 0;
    sync_token = 1;
    connection_state = state;
    online = false;
    kind = usb_type;
    usb = handle;
    quals = record { product = none; model = none; device = none };
    kicked = false;
    key = none;
    userlist = replicate client_list_max none;
    loop_to_use_apacket = P.new_queue;
    d_write_ctrol = pos 5;
    d_read_ctrol = pos 5;
    t_error = no_error;
    mallocs = 0;
    frees = 0;
  }
