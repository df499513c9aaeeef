-- ===== src/Transport/Tests/Output.antt =====
-- Tests of shell_recv.
use adb_server_project.Common.{◌≡◌, refl, true, false, [], ◌∷◌, some, arith}
use adb_server_project.Common.Int.{pos}
use adb_server_project.Platform.Example.{list_platform, list_platform-IsFifo}
use adb_server_project.Transport.State.{Transport, Aclient, close}
use adb_server_project.Transport.Clients.{client_get_ptr}
use adb_server_project.Transport.Wire.{IsRunning}
use adb_server_project.Transport.View.Refine.{own_fields-IsRunning}
use adb_server_project.Transport.Session.{Session}
use adb_server_project.Transport.Read.Stream.{inbox_bytes}
use adb_server_project.Transport.Output.{has_prompt, shell_recv}
use adb_server_project.Transport.Output.Drained.{shell_recv-closed}
use adb_server_project.Transport.Tests.{phone, phone-IsRunning, hello, hello_fits, woken}

-- "$ " shows a prompt, behind a NUL it does not.
prompt_found : has_prompt (36 ∷ 32 ∷ []) ≡ true
unfolding has_prompt
prompt_found = refl

prompt_hidden : has_prompt (0 ∷ 36 ∷ []) ≡ false
unfolding has_prompt
prompt_hidden = refl

-- The device has closed the channel behind "hi!".
abbrev closed : Aclient list_platform
closed = record woken { biptype = close; connected = false; remote_id = 0 }

abbrev phone_closed : Transport list_platform
phone_closed = record phone { userlist = some closed ∷ [] }

abbrev listener : Session list_platform
listener = record { transport = phone_closed; clock = 50; events = [] }

closed_found : client_get_ptr list_platform 100 phone_closed ≡ some (0, closed)
unfolding client_get_ptr
closed_found = refl

shell_recv-closed_example :
    (s' : Session list_platform) × (shell_recv list_platform 2 (62 ∷ []) 100 5 listener
      ≡ some ((pos 0, 62 ∷ inbox_bytes (hello ∷ [])), s'))
    × IsRunning list_platform list_platform-IsFifo s'.transport
    × (s'.events ≡ [])
shell_recv-closed_example =
    shell_recv-closed list_platform list_platform-IsFifo 2 (62 ∷ []) 100 5 0 closed listener
      (own_fields-IsRunning list_platform list_platform-IsFifo phone (some closed ∷ [])
        phone.connection_state phone.online phone.quals phone.key phone-IsRunning)
      closed_found refl (hello_fits, tt) (omega arith)
