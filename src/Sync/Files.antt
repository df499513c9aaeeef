-- ===== src/Sync/Files.antt =====
-- The local files of the client: the functions on adbFile, which is a std::fstream, and mkcopyinfo.
use adb_server_project.Common.{
  ℕ, zero, suc, ◌+◌, Bool, true, false, ◌||◌, List, [], ◌∷◌, ◌++◌, Option, none, some,
  if◌then◌else◌, ◌==◌, ltb, drop, take, set, length,
}
use adb_server_project.CString.{strcmp_eq}

-- What `stat` fills in.
pub record Stat : Type 0 where
  pub st_mode : ℕ
  pub st_mtime : ℕ
  pub st_size : ℕ

-- What _mkdir gives for a directory name.
pub data MadeDir : Type 0 where
  made exists refused : MadeDir

-- The local disk: the contents of the files that can be read, which files can be written where they
-- are or can be made, the answers of stat and _mkdir and the listing of a directory; `dirs` are the
-- directories made since, which stat and the listing do not know of; `memory` tells whether malloc gives
-- memory for a whole file, and `room` whether a file can come to hold some bytes.
pub record Files : Type 0 where
  pub content : List ℕ → Option (List ℕ)
  pub can_write : List ℕ → Bool
  pub stat : List ℕ → Option Stat
  pub mkdir : List ℕ → MadeDir
  pub listing : List ℕ → Option (List (List ℕ))
  pub dirs : List (List ℕ)
  pub memory : Bool
  pub room : List ℕ → List ℕ → Bool

pub data OpenMode : Type 0 where
  s_rdonly s_wronly s_wnronly s_rdwr s_other : OpenMode

-- An open stream: the file's name, its bytes at the time and the place where it reads.
pub record AdbFile : Type 0 where
  pub path : List ℕ
  pub bytes : List ℕ
  pub place : ℕ

abbrev pub store_file : List ℕ → Option (List ℕ) → Files → Files
store_file path bytes d = record d {
  content = λ p. if strcmp_eq p path then bytes else d.content p;
}

abbrev open_empty : List ℕ → Files → Option AdbFile × Files
open_empty path d =
    if d.can_write path
    then (some (record { path = path; bytes = []; place = 0 }), store_file path (some []) d)
    else (none, d)

-- std::fstream's constructor: `out` without `in` makes the file, and makes it empty, with or without
-- `trunc`; with `in` it has to be there.
unfoldable pub fstream_open : List ℕ → OpenMode → Files → Option AdbFile × Files
fstream_open path s_rdonly d = (
  elim (d.content path) [
    | none ↦ none
    | some b ↦ some (record { path = path; bytes = b; place = 0 })
  ],
  d,
)
fstream_open path s_wronly d = open_empty path d
fstream_open path s_wnronly d = open_empty path d
fstream_open path _ d = (
  elim (d.content path) [
    | none ↦ none
    | some b ↦
        if d.can_write path then some (record { path = path; bytes = b; place = 0 }) else none
  ],
  d,
)

unfoldable pub adb_file_open : List ℕ → OpenMode → Files → Option AdbFile × Files
unfolding fstream_open
adb_file_open path s_other d = (none, d)
adb_file_open path options d = fstream_open path options d

pub data Whence : Type 0 where
  seek_set seek_end : Whence

-- The new place, from the start or from the end; 0 on a null stream.
unfoldable pub adb_file_lseek : Option AdbFile → ℕ → Whence → ℕ × Option AdbFile
adb_file_lseek none s_pos e_pos = (0, none)
adb_file_lseek (some f) s_pos seek_set = (s_pos, some (record f { place = s_pos }))
adb_file_lseek (some f) s_pos seek_end =
    (length f.bytes + s_pos, some (record f { place = length f.bytes + s_pos }))

unfoldable pub adb_file_close : Option AdbFile → Option AdbFile
adb_file_close f = none

-- The bytes that were read, as many as there are and at most `len`.
unfoldable pub adb_file_read : Option AdbFile → ℕ → List ℕ × Option AdbFile
adb_file_read none len = ([], none)
adb_file_read (some f) len =
    let got = take len (drop f.place f.bytes) in
    (got, some (record f { place = f.place + length got }))

-- strchr, to the offset of the character in the text.
unfoldable pub index_of : ℕ → List ℕ → Option ℕ
index_of c [] = none
index_of c (d ∷ s) =
    let rest = index_of c s in
    if d == c then some 0 else elim rest [ none ↦ none | some i ↦ some (suc i) ]

abbrev later : Option ℕ → Option ℕ → Option ℕ
later none p2 = p2
later (some p) none = some p
later (some p) (some p2) = if ltb p p2 then some p2 else some p

-- adb_dirstart of sysdeps.h: of the first '/' and the first '\', the later one.
unfoldable pub adb_dirstart : List ℕ → Option ℕ
unfolding index_of
adb_dirstart path = later (index_of 47 path) (index_of 92 path)

-- The text behind the last '/' or '\', by adb_dirstop and the `name++` of its callers; the whole path
-- where there is none.
unfoldable pub base_name : List ℕ → List ℕ
base_name path = go path path
  where
    go : List ℕ → List ℕ → List ℕ
    go best [] = best
    go best (c ∷ s) = if c == 47 || c == 92 then go s s else go best s

abbrev pub is_among : List ℕ → List (List ℕ) → Bool
is_among path [] = false
is_among path (p ∷ ps) = let rest = is_among path ps in if strcmp_eq path p then true else rest

-- adb_mkdir: a directory that was made is there from then on.
unfoldable pub make_dir : List ℕ → Files → MadeDir × Files
make_dir path d = if is_among path d.dirs then (exists, d) else elim (d.mkdir path) [
  | made ↦ (made, record d { dirs = path ∷ d.dirs })
  | exists ↦ (exists, d)
  | refused ↦ (refused, d)
]

-- The loop of mkdirs: `x` is the offset in `name` from where a separator is looked for; each prefix
-- is made, and the separator that ended it is put back as '\'. The result says whether it returned 0.
unfoldable pub mkdirs_from : ℕ → List ℕ → ℕ → Files → Option (Bool × Files)
unfolding adb_dirstart make_dir
mkdirs_from zero name x d = elim (adb_dirstart (drop x name)) [
  | none ↦ some (true, d)
  | some i ↦ none
]
mkdirs_from (suc n) name x d = elim (adb_dirstart (drop x name)) [
  | none ↦ some (true, d)
  | some i ↦
      let end = x + i in
      let m = make_dir (take end name) d in
      let rest = mkdirs_from n (set name end 92) (suc end) m.1 in
      elim m.0 [ refused ↦ some (false, m.1) | _ ↦ rest ]
]

-- `name + 1` lies behind the NUL of an empty name.
unfoldable pub mkdirs : List ℕ → Files → Option (Bool × Files)
unfolding mkdirs_from
mkdirs [] d = none
mkdirs (c ∷ name) d = mkdirs_from (length name) (c ∷ name) 1 d

-- The file has to be there already, for it is first opened to be read; its directories are made.
unfoldable pub adb_file_creat : List ℕ → OpenMode → Files → Option (Option AdbFile × Files)
unfolding mkdirs adb_file_open fstream_open
adb_file_creat path options d = elim (mkdirs path d) [
  | none ↦ none
  | some (_, d1) ↦
      let (probe, d') = fstream_open path s_rdonly d1 in
      some (elim probe [ none ↦ (none, d') | some f ↦ adb_file_open path options d' ])
]

-- `lfd->write(buffer, len).good()`, the stream and the disk.
unfoldable pub fstream_write : AdbFile → List ℕ → Files → Bool × AdbFile × Files
fstream_write f bytes d =
    let all = f.bytes ++ bytes in
    if d.room f.path all
    then (true, record f { bytes = all }, store_file f.path (some all) d)
    else (false, f, d)

unfoldable pub adb_unlink : List ℕ → Files → Files
adb_unlink path d = store_file path none d
