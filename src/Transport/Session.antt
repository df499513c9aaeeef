-- ===== src/Transport/Session.antt =====
-- A user's call runs between the other threads. Where it waits on its channel's semaphore the others
-- go on: the schedule says, for each wait, what they do to the transport meanwhile, what the clock
-- shows afterwards and whether a notification came in time.
use adb_server_project.Common.{ℕ, Bool, List, [], ◌∷◌, Option, none, some, if◌then◌else◌, ◌==◌}
use adb_server_project.Common.Int.{pos, ◌-ℤ◌, ltb_ℤ}
use adb_server_project.Common.Exec.{Exec}
use adb_server_project.Platform.{Platform}
use adb_server_project.Transport.State.{Transport, Aclient}
use adb_server_project.Transport.Clients.{slot, update_client}

pub record Event (P : Platform) : Type 0 where
  pub meanwhile : Transport P → Transport P
  pub now : ℕ
  pub in_time : Bool

pub record Session (P : Platform) : Type 0 where
  pub transport : Transport P
  pub clock : ℕ
  pub events : List (Event P)

module _ (P : Platform) where
  -- A step of the transport in a user's thread.
  abbrev pub lift : {A : Type 0} → Exec (Transport P) A → Exec (Session P) A
  lift m s = elim (m s.transport) [
    | none ↦ none
    | some (a, t) ↦ some (a, record s { transport = t })
  ]

  abbrev pub take_token : Aclient P → Aclient P
  take_token a = record a { count = a.count -ℤ pos 1 }

  -- The sleep of Wait and Wait_time: the next event, or for ever.
  abbrev sleep : ℕ → ℕ → List (Event P) → Session P → Option (Unit {0} × Session P)
  sleep i w_sec [] s = none
  sleep i w_sec (e ∷ es) s =
      let t = e.meanwhile s.transport in
      let s' = record s { transport = t; clock = e.now; events = es } in
      if w_sec == 0
      then some (tt, record s' { transport = update_client P i take_token t })
      else (if e.in_time
          then some (tt, record s' { transport = update_client P i take_token t })
          else some (tt, s'))

  -- aclient::wait of the channel in a place of the table: Wait for ever, or Wait_time some seconds.
  unfoldable pub wait : ℕ → ℕ → Exec (Session P) (Unit {0})
  unfolding ◌-ℤ◌
  wait i w_sec s = elim (slot P s.transport.userlist i) [
    | none ↦ none
    | some a ↦
        if ltb_ℤ a.count (pos 1)
        then sleep i w_sec s.events s
        else some (tt, record s { transport = update_client P i take_token s.transport })
  ]
