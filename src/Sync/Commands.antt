-- ===== src/Sync/Commands.antt =====
-- The file commands of a channel: do_sync_push, do_sync_pull, do_sync_sync and the two on buffers.
use adb_server_project.Common.{
  ℕ, ◌/◌, ◌%◌, Bool, true, false, ◌&&◌, ◌||◌, not, List, ◌∷◌, ◌++◌, Option, none, some,
  if◌then◌else◌, ◌==◌,
}
use adb_server_project.Common.Exec.{Exec, pure}
use adb_server_project.Common.Int.{ℤ}
use adb_server_project.Sync.{SyncChannel, ok, one, is_ok, attempt}
use adb_server_project.Sync.Files.{Files, base_name}
use adb_server_project.Sync.Requests.{sync_quit, sync_readmode}
use adb_server_project.Sync.Send.{sync_send, sync_send_buffer, is_reg, is_dir}
use adb_server_project.Sync.Receive.{sync_recv, sync_recv_buffer}
use adb_server_project.Sync.Copies.{copy_local_dir_remote, copy_remote_dir_local}
use adb_server_project.Sync.Lists.{is_lnk}

abbrev pub is_chr : ℕ → Bool
is_chr mode = mode / 4096 % 16 == 2

-- Modes that are pulled as a file; S_ISBLK is 0 here.
abbrev pub is_plain : ℕ → Bool
is_plain mode = is_reg mode || is_lnk mode || is_chr mode

-- `dir + "/" + name`, for the last part of a path.
unfoldable pub below : List ℕ → List ℕ → List ℕ
unfolding base_name
below dir path = dir ++ 47 ∷ base_name path

module _ (S : Type 0) (C : SyncChannel S) where
  -- A failure is 1 and leaves the channel as it is; a success quits it.
  unfoldable pub quit_after : ℕ → Exec S ℤ → Exec S ℤ
  unfolding sync_quit
  quit_after fuel m s = elim (m s) [
    | none ↦ none
    | some (r, s') ↦
        if is_ok r
        then elim (sync_quit S C fuel s') [ none ↦ none | some s'' ↦ some (ok, s'') ]
        else some (one, s')
  ]

  -- The mode of the remote path, or 1.
  unfoldable pub with_mode : {A : Type 0} → List ℕ → Exec S A → (ℕ → Exec S A) → Exec S A
  unfolding sync_readmode
  with_mode rpath bad good s = elim (sync_readmode S C rpath s) [
    | none ↦ none
    | some ((r, mode), s') ↦ if is_ok r then good mode s' else bad s'
  ]

  unfoldable pub do_sync_push : ℕ → List ℕ → List ℕ → Bool → Files → Exec S ℤ
  unfolding quit_after with_mode sync_quit copy_local_dir_remote sync_send below
  do_sync_push fuel lpath rpath verify d = attempt C.connect (pure one) (elim (d.stat lpath) [
    | none ↦ λ s. elim (sync_quit S C fuel s) [ none ↦ none | some s' ↦ some (one, s') ]
    | some st ↦
        if is_dir st.st_mode
        then quit_after fuel (copy_local_dir_remote S C fuel lpath rpath false false d)
        else with_mode rpath (pure one) (λ mode.
          let target = if not (mode == 0) && is_dir mode then below rpath lpath else rpath in
          quit_after fuel (sync_send S C lpath target st.st_mtime st.st_mode verify d))
  ])

  -- The result and the disk, in place of the result alone.
  abbrev pub on_disk : ℕ → Exec S (ℤ × Files) → Exec S (ℤ × Files)
  on_disk fuel m s = elim (m s) [
    | none ↦ none
    | some ((r, d), s') ↦
        if is_ok r
        then elim (sync_quit S C fuel s') [ none ↦ none | some s'' ↦ some ((ok, d), s'') ]
        else some ((one, d), s')
  ]

  unfoldable pub pull_target : List ℕ → List ℕ → Files → List ℕ
  unfolding below
  pull_target rpath lpath d = elim (d.stat lpath) [
    | none ↦ lpath
    | some st ↦ if is_dir st.st_mode then below lpath rpath else lpath
  ]

  unfoldable pub do_sync_pull : ℕ → ℕ → List ℕ → List ℕ → Files → Exec S (ℤ × Files)
  unfolding sync_quit with_mode copy_remote_dir_local sync_recv pull_target
  do_sync_pull depth fuel rpath lpath d = attempt C.connect (pure (one, d)) (
      with_mode rpath (pure (one, d)) (λ mode.
        if mode == 0
        then pure (one, d)
        else (if is_plain mode
            then on_disk fuel (sync_recv S C fuel rpath (pull_target rpath lpath d) d)
            else (if is_dir mode
                then on_disk fuel (copy_remote_dir_local S C depth fuel rpath lpath d)
                else pure (one, d)))))

  unfoldable pub do_sync_sync : ℕ → List ℕ → List ℕ → Bool → Files → Exec S ℤ
  unfolding quit_after copy_local_dir_remote
  do_sync_sync fuel lpath rpath listonly d =
      attempt C.connect (pure one)
        (quit_after fuel (copy_local_dir_remote S C fuel lpath rpath true listonly d))

  -- `now` is time(NULL); 33206 is the mode of a normal file.
  unfoldable pub do_sync_push_buffer : ℕ → ℕ → Option (List ℕ) → ℕ → List ℕ → Exec S ℤ
  unfolding quit_after with_mode sync_send_buffer
  do_sync_push_buffer fuel now buffer size rpath = attempt C.connect (pure one) (
      with_mode rpath (pure one) (λ mode.
        if not (mode == 0) && is_dir mode
        then pure one
        else quit_after fuel (sync_send_buffer S C buffer size rpath now 33206)))

  unfoldable pub pull_to_buffer : ℕ → List ℕ → List ℕ → Exec S (ℤ × List ℕ × Option ℕ)
  unfolding sync_quit sync_recv_buffer
  pull_to_buffer fuel buffer rpath s = elim (sync_recv_buffer S C fuel buffer rpath s) [
    | none ↦ none
    | some ((r, buffer', len), s') ↦
        if is_ok r
        then elim (sync_quit S C fuel s') [
          | none ↦ none
          | some s'' ↦ some ((ok, buffer', len), s'')
        ]
        else some ((one, buffer', len), s')
  ]

  unfoldable pub do_sync_pull_buffer : ℕ → List ℕ → List ℕ → Exec S (ℤ × List ℕ × Option ℕ)
  unfolding pull_to_buffer with_mode
  do_sync_pull_buffer fuel buffer rpath = attempt C.connect (pure (one, buffer, none)) (
      with_mode rpath (pure (one, buffer, none)) (λ mode.
        if mode == 0
        then pure (one, buffer, none)
        else (if is_plain mode
            then pull_to_buffer fuel buffer rpath
            else pure (one, buffer, none))))
