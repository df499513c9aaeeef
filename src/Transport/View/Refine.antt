-- ===== src/Transport/View/Refine.antt =====
-- Runs that make a transport show a given view, and how they are put together.
use adb_server_project.Common.{
  ℕ, ◌≡◌, refl, inl, inr, Bool, List, [], Option, some, length, Bool-cases, if◌then◌else◌, ap,
}
use adb_server_project.Common.Exec.{Exec, ◌>>◌, pure}
use adb_server_project.Packet.{Apacket}
use adb_server_project.Platform.{Platform, IsFifo}
use adb_server_project.Transport.State.{Transport, Aclient}
use adb_server_project.Transport.Packets.{put_apacket}
use adb_server_project.Common.{◌≤◌, append-nil, ◌∙◌, sym, subst}
use adb_server_project.Transport.Wire.{Wire, IsRunning, IsFrame-refl, Sends, Sends-quiet}
use adb_server_project.Banner.{Quals, ConnectionState}
use adb_server_project.Transport.Clients.{slot, update_client}
use adb_server_project.Transport.Handle.{Command}
use adb_server_project.Transport.Wire.Send.{put_apacket-Sends}
use adb_server_project.Transport.View.{
  Channel, View, view, respond, send, on_channel, channels_of, channel, if_online,
}
use adb_server_project.Transport.View.Channels.{change-channels_of}

module _ (P : Platform) (fifo : IsFifo P) where
  -- A run that returns on a running transport, and makes it look like `v`.
  pub record Shows (v : View) (r : Option (Unit {0} × Transport P)) : Type 0 where
    pub after : Transport P
    pub returned : r ≡ some (tt, after)
    pub running : IsRunning P fifo after
    pub seen : view P fifo after ≡ v

  pub Sends-Shows :
      (t : Transport P) (ws : List Wire) (r : Option (Unit {0} × Transport P))
      → Sends P fifo t ws r
      → Shows (send ws (view P fifo t)) r
  Sends-Shows t ws r s = record {
    after = s.after;
    returned = s.returned;
    running = s.running;
    seen = λ i. record {
      channels = channels_of P fifo (s.frame.same_users i);
      state = s.frame.same_state i;
      online = s.frame.same_online i;
      quals = s.frame.same_quals i;
      key = s.frame.same_key i;
      sent = s.sent i;
    };
  }

  -- What follows a run on the transport that it leaves.
  pub Shows-then :
      (v w : View) (m n : Exec (Transport P) (Unit {0})) (t : Transport P)
      → Shows v (m t)
      → ((u : Transport P) → IsRunning P fifo u → view P fifo u ≡ v → Shows w (n u))
      → Shows w ((m >> n) t)
  Shows-then v w m n t s k =
      let r = k s.after s.running s.seen in
      record {
        after = r.after;
        returned = rw (s.returned, ◌>>◌) r.returned;
        running = r.running;
        seen = r.seen;
      }

  pub send_nothing : (v : View) → send [] v ≡ v
  send_nothing v = λ i. record v { sent = append-nil v.sent i }

  -- The packet goes back to the pool at the end.
  pub put_apacket-Shows :
      (v : View) (p : Apacket) (u : Transport P)
      → IsRunning P fifo u
      → view P fifo u ≡ v
      → Shows v (put_apacket P (some p) u)
  put_apacket-Shows v p u h e =
      subst (λ w. Shows w (put_apacket P (some p) u)) (send_nothing (view P fifo u) ∙ e)
        (Sends-Shows u [] _ (put_apacket-Sends P fifo p u h))

  -- The fields that handle_packet itself changes do not matter for running.
  pub own_fields-IsRunning :
      (t : Transport P) (users : List (Option (Aclient P))) (state : ConnectionState)
      (online : Bool) (quals : Quals) (key : Option ℕ)
      → IsRunning P fifo t
      → IsRunning P fifo (record t {
        userlist = users;
        connection_state = state;
        online = online;
        quals = quals;
        key = key;
      })
  own_fields-IsRunning t users state online quals key h = record {
    the_pair = h.the_pair;
    has_pair = h.has_pair;
    open_pair = h.open_pair;
    socket = h.socket;
    other_end = h.other_end;
    not_kicked = h.not_kicked;
    is_usb = h.is_usb;
  }

  pub update_client-Shows :
      (v : View) (i : ℕ) (f : Aclient P → Aclient P) (g : Channel → Channel) (u : Transport P)
      → IsRunning P fifo u
      → ((a : Aclient P)
          → slot P u.userlist i ≡ some a
          → channel P fifo (f a) ≡ g (channel P fifo a))
      → view P fifo u ≡ v
      → Shows (on_channel i g v) (some (tt, update_client P i f u))
  update_client-Shows v i f g u h same e = record {
    after = update_client P i f u;
    returned = refl;
    running = own_fields-IsRunning u _ _ _ _ _ h;
    seen =
        (λ j. record (view P fifo u) {
          channels = change-channels_of P fifo i f g u.userlist same j;
        })
        ∙ ap (on_channel i g) e;
  }

  pub if_online-Shows :
      (t : Transport P) (ws : List Wire) (m : Exec (Transport P) (Unit {0}))
      → IsRunning P fifo t
      → Sends P fifo t ws (m t)
      → Shows
          (send (if_online (view P fifo t) ws) (view P fifo t))
          ((if t.online then m else pure tt) t)
  if_online-Shows t ws m h s = elim (Bool-cases t.online) [
    | inl e ↦
        subst
          (λ (c : Bool).
            Shows (send (if c then ws else []) (view P fifo t)) ((if c then m else pure tt) t))
          (sym e) (Sends-Shows t ws (m t) s)
    | inr e ↦
        subst
          (λ (c : Bool).
            Shows (send (if c then ws else []) (view P fifo t)) ((if c then m else pure tt) t))
          (sym e) (Sends-Shows t [] _ (Sends-quiet P fifo t t tt h refl (IsFrame-refl P fifo t)))
  ]

  -- Each command, on a running transport whose view promises `v`.
  abbrev pub Meets : Command → (Apacket → Exec (Transport P) (Unit {0})) → Type 0
  Meets c handle =
      (p : Apacket) (t : Transport P) (v : View)
      → p.msg.data_length ≤ length p.payload
      → IsRunning P fifo t
      → respond P c p (view P fifo t) ≡ some v
      → Shows v (handle p t)

  pub some-Shows :
      (v w : View) (r : Option (Unit {0} × Transport P)) → Shows v r → some v ≡ some w → Shows w r
  some-Shows v w r s e = let same : v ≡ w = cc in subst (λ x. Shows x r) same s
