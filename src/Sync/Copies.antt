-- ===== src/Sync/Copies.antt =====
-- The copying of a directory in both directions.
use Prim.Native.Nat.{bit_and}
use adb_server_project.Common.{
  ℕ, zero, suc, Bool, true, false, ◌&&◌, ◌||◌, not, List, [], ◌∷◌, none, some, if◌then◌else◌, ◌==◌,
  ltb, length,
}
use adb_server_project.Common.Exec.{Exec}
use adb_server_project.Common.Int.{ℤ}
use adb_server_project.Sync.{SyncChannel, ok, one, minus_one, is_ok}
use adb_server_project.Sync.Files.{Files}
use adb_server_project.Sync.Requests.{sync_ls, sync_start_readtime, sync_finish_readtime}
use adb_server_project.Sync.Send.{sync_send, is_reg}
use adb_server_project.Sync.Receive.{sync_recv}
use adb_server_project.Sync.Lists.{Copyinfo, LsCookie, is_lnk, local_build_list}

-- A path that ends in a slash.
unfoldable pub with_slash : List ℕ → List ℕ
with_slash [] = 47 ∷ []
with_slash (c ∷ []) = if c == 47 then c ∷ [] else c ∷ 47 ∷ []
with_slash (c ∷ d ∷ s) = c ∷ with_slash (d ∷ s)

abbrev pub is_empty : List ℕ → Bool
is_empty path = length path == 0

-- What the remote file's size and time say of the local one: whether it need not be sent.
unfoldable pub is_current : Copyinfo → ℕ → ℕ → ℕ → Bool
is_current ci timestamp mode size =
    let both = bit_and ci.mode mode in
    size == ci.size
    && (is_reg both && timestamp == ci.time || is_lnk both && not (ltb timestamp ci.time))

module _ (S : Type 0) (C : SyncChannel S) where
  unfoldable pub start_times : List Copyinfo → Exec S ℤ
  unfolding sync_start_readtime
  start_times [] s = some (ok, s)
  start_times (ci ∷ list) s = elim (sync_start_readtime S C ci.dst s) [
    | none ↦ none
    | some (r, s') ↦ if is_ok r then start_times list s' else some (one, s')
  ]

  -- The result, and the list with its flags.
  unfoldable pub finish_times : List Copyinfo → Exec S (ℤ × List Copyinfo)
  unfolding sync_finish_readtime is_current
  finish_times [] s = some ((ok, []), s)
  finish_times (ci ∷ list) s = elim (sync_finish_readtime S C s) [
    | none ↦ none
    | some ((r, timestamp, mode, size), s') ↦
        if is_ok r
        then elim (finish_times list s') [
          | none ↦ none
          | some ((r', list'), s'') ↦
              some (
                (r', record ci { flag = ci.flag || is_current ci timestamp mode size } ∷ list'),
                s'',
              )
        ]
        else some ((one, ci ∷ list), s')
  ]

  unfoldable pub push_files : Bool → Files → List Copyinfo → Exec S ℤ
  unfolding sync_send
  push_files listonly d [] s = some (ok, s)
  push_files listonly d (ci ∷ list) s =
      let rest = push_files listonly d list in
      if ci.flag || listonly
      then rest s
      else elim (sync_send S C ci.src ci.dst ci.time ci.mode false d s) [
        | none ↦ none
        | some (r, s') ↦ if is_ok r then rest s' else some (one, s')
      ]

  -- The part under `checktimestamps`.
  unfoldable pub check_times : Bool → List Copyinfo → Exec S (ℤ × List Copyinfo)
  unfolding start_times finish_times
  check_times false list s = some ((ok, list), s)
  check_times true list s = elim (start_times list s) [
    | none ↦ none
    | some (r, s') ↦ if is_ok r then finish_times list s' else some ((r, list), s')
  ]

  unfoldable pub copy_local_dir_remote : ℕ → List ℕ → List ℕ → Bool → Bool → Files → Exec S ℤ
  unfolding with_slash local_build_list check_times push_files
  copy_local_dir_remote fuel lpath rpath checktimestamps listonly d s =
      if is_empty lpath || is_empty rpath
      then some (minus_one, s)
      else elim (local_build_list fuel d (with_slash lpath) (with_slash rpath) []) [
        | none ↦ none
        | some (r, list) ↦
            if is_ok r
            then elim (check_times checktimestamps list s) [
              | none ↦ none
              | some ((r', list'), s') ↦
                  if is_ok r' then push_files listonly d list' s' else some (one, s')
            ]
            else some (minus_one, s)
      ]

  -- `while (dirlist != NULL)`, with the recursive call.
  unfoldable pub each_remote_dir :
      (List ℕ → List ℕ → List Copyinfo → Exec S (ℤ × List Copyinfo))
      → List Copyinfo
      → List Copyinfo
      → Exec S (ℤ × List Copyinfo)
  each_remote_dir build [] files s = some ((ok, files), s)
  each_remote_dir build (ci ∷ dirs) files s = elim (build ci.src ci.dst files s) [
    | none ↦ none
    | some ((r, files'), s') ↦
        if is_ok r then each_remote_dir build dirs files' s' else some ((one, files'), s')
  ]

  -- sync_ls is handed the two lists and leaves them as they are.
  unfoldable pub remote_build_list :
      ℕ → ℕ → List ℕ → List ℕ → List Copyinfo → Exec S (ℤ × List Copyinfo)
  unfolding sync_ls each_remote_dir
  remote_build_list zero fuel rpath lpath files s = none
  remote_build_list (suc n) fuel rpath lpath files s =
      let args : LsCookie = record {
        filelist = files;
        dirlist = [];
        args_rpath = rpath;
        args_lpath = lpath;
      } in
      elim (sync_ls S C fuel rpath args s) [
        | none ↦ none
        | some (r, s') ↦
            if is_ok r
            then each_remote_dir (remote_build_list n fuel) args.dirlist args.filelist s'
            else some ((one, files), s')
      ]

  unfoldable pub pull_files : ℕ → List Copyinfo → Files → Exec S (ℤ × Files)
  unfolding sync_recv
  pull_files fuel [] d s = some ((ok, d), s)
  pull_files fuel (ci ∷ list) d s =
      let rest = pull_files fuel list in
      if ci.flag then rest d s else elim (sync_recv S C fuel ci.src ci.dst d s) [
        | none ↦ none
        | some ((r, d'), s') ↦ if is_ok r then rest d' s' else some ((one, d'), s')
      ]

  unfoldable pub copy_remote_dir_local : ℕ → ℕ → List ℕ → List ℕ → Files → Exec S (ℤ × Files)
  unfolding with_slash remote_build_list pull_files
  copy_remote_dir_local depth fuel rpath lpath d s =
      if is_empty rpath || is_empty lpath
      then some ((minus_one, d), s)
      else elim (remote_build_list depth fuel (with_slash rpath) (with_slash lpath) [] s) [
        | none ↦ none
        | some ((r, list), s') ↦
            if is_ok r then pull_files fuel list d s' else some ((minus_one, d), s')
      ]
