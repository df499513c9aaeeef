-- ===== src/Sync/Lists.antt =====
-- The lists of files to copy: mkcopyinfo, local_build_list and the callback for a remote listing.
-- Paths are taken to be absolute, since local_build_list changes the working directory.
use adb_server_project.Common.{
  ℕ, zero, suc, ◌+◌, ◌/◌, ◌%◌, Bool, true, false, ◌&&◌, ◌||◌, List, [], ◌∷◌, ◌++◌, Option, none,
  some, if◌then◌else◌, ◌==◌, ltb, length,
}
use adb_server_project.Common.Int.{ℤ}
use adb_server_project.Sync.{ok, minus_one, is_ok}
use adb_server_project.Sync.Files.{Files, Stat}
use adb_server_project.Sync.Send.{is_reg, is_dir}

-- S_ISLNK on Windows.
abbrev pub is_lnk : ℕ → Bool
is_lnk mode = false

-- `S_IFDIR & mode`.
abbrev pub has_dir_bit : ℕ → Bool
has_dir_bit mode = mode / 16384 % 2 == 1

-- The list is linked by `next`; here it is a list.
pub record Copyinfo : Type 0 where
  pub src : List ℕ
  pub dst : List ℕ
  pub time : ℕ
  pub mode : ℕ
  pub size : ℕ
  pub flag : Bool

unfoldable pub mkcopyinfo : List ℕ → List ℕ → List ℕ → Bool → Copyinfo
mkcopyinfo spath dpath name isdir =
    let ending = if isdir then 47 ∷ [] else [] in
    record {
      src = spath ++ name ++ ending;
      dst = dpath ++ name ++ ending;
      time = 0;
      mode = 0;
      size = 0;
      flag = false;
    }

-- "." and "..".
unfoldable pub is_dots : List ℕ → Bool
is_dots (c ∷ []) = c == 46
is_dots (c ∷ d ∷ []) = c == 46 && d == 46
is_dots _ = false

abbrev pub with_stat : Stat → Copyinfo → Copyinfo
with_stat st ci = record ci { time = st.st_mtime; mode = st.st_mode; size = st.st_size }

-- The stat of an entry, or the one that `st` has from before; there is none at first.
abbrev stat_or : Option Stat → Option Stat → Option Stat
stat_or none before = before
stat_or (some st) before = some st

-- The loop of local_build_list over the names of a directory. A name that makes the path too long is
-- passed over together with the next one (`skip`). The result, the files and the directories.
unfoldable pub scan_names :
    Files
    → (lpath rpath : List ℕ) → Bool
    → List (List ℕ)
    → Option Stat
    → List Copyinfo
    → List Copyinfo
    → Option (ℤ × List Copyinfo × List Copyinfo)
unfolding mkcopyinfo is_dots
scan_names d lpath rpath skip [] st files dirs = some (ok, files, dirs)
scan_names d lpath rpath true (name ∷ names) st files dirs =
    scan_names d lpath rpath false names st files dirs
scan_names d lpath rpath false (name ∷ names) st files dirs =
    if is_dots name
    then scan_names d lpath rpath false names st files dirs
    else (if ltb 260 (length lpath + length name + 1)
        then scan_names d lpath rpath true names st files dirs
        else elim (stat_or (d.stat (lpath ++ name)) st) [
          | none ↦ none
          | some st' ↦
              if has_dir_bit st'.st_mode
              then scan_names d lpath rpath false names (some st') files
                  (mkcopyinfo lpath rpath name true ∷ dirs)
              else (let ci = mkcopyinfo lpath rpath name false in
                  elim (d.stat ci.src) [
                    | none ↦ some (minus_one, files, dirs)
                    | some s ↦
                        if is_reg s.st_mode || is_lnk s.st_mode
                        then scan_names d lpath rpath false names (some s) (with_stat s ci ∷ files)
                            dirs
                        else scan_names d lpath rpath false names (some s) files dirs
                  ])
        ])

-- The recursion into the directories; their results are not looked at.
unfoldable pub each_local_dir :
    (List ℕ → List ℕ → List Copyinfo → Option (ℤ × List Copyinfo))
    → List Copyinfo
    → List Copyinfo
    → Option (List Copyinfo)
each_local_dir build [] files = some files
each_local_dir build (ci ∷ dirs) files = elim (build ci.src ci.dst files) [
  | none ↦ none
  | some (_, files') ↦ each_local_dir build dirs files'
]

-- The fuel is a bound on the depth of the directories. A directory that lists nothing, not even ".",
-- leaves c_file unset, which is a fault.
unfoldable pub local_build_list :
    ℕ → Files → List ℕ → List ℕ → List Copyinfo → Option (ℤ × List Copyinfo)
unfolding scan_names each_local_dir
local_build_list zero d lpath rpath files = none
local_build_list (suc n) d lpath rpath files = elim (d.listing lpath) [
  | none ↦ some (minus_one, files)
  | some [] ↦ none
  | some (name ∷ names) ↦ elim (scan_names d lpath rpath false (name ∷ names) none files []) [
    | none ↦ none
    | some (r, files', dirs) ↦
        if is_ok r
        then elim (each_local_dir (local_build_list n d) dirs files') [
          | none ↦ none
          | some all ↦ some (ok, all)
        ]
        else some (r, files')
  ]
]

-- The two lists behind the `cookie` of sync_ls_build_list_cb, with the paths.
pub record LsCookie : Type 0 where
  pub filelist : List Copyinfo
  pub dirlist : List Copyinfo
  pub args_rpath : List ℕ
  pub args_lpath : List ℕ

unfoldable pub sync_ls_build_list_cb : ℕ → ℕ → ℕ → List ℕ → LsCookie → LsCookie
unfolding mkcopyinfo is_dots
sync_ls_build_list_cb mode size time name args =
    if is_dir mode
    then (if is_dots name then args else record args {
      dirlist = mkcopyinfo args.args_rpath args.args_lpath name true ∷ args.dirlist;
    })
    else (if is_reg mode || is_lnk mode
        then record args {
          filelist =
              record (mkcopyinfo args.args_rpath args.args_lpath name false) {
                time = time;
                mode = mode;
                size = size;
              }
              ∷ args.filelist;
        }
        else args)
