-- ===== src/Sync/NewFile.antt =====
-- sync_recv into a local file, which has to be there already.
use adb_server_project.Common.{
  ℕ, zero, suc, ◌+◌, ◌^◌, ◌≤◌, ◌<◌, ◌≡◌, refl, ◌∙◌, ap, Bool-cases, inl, inr, Bool, true, false,
  List, [], ◌∷◌, ◌++◌, Option, none, some, ltb, drop, take, set, length, arith, length-drop,
  length-set, Option-cases,
}
use adb_server_project.Common.Exec.{Exec, pure}
use adb_server_project.Common.Int.{ℤ}
use adb_server_project.Sync.{
  SyncChannel, minus_one, attempt_read, with_word, two_words, id_data, id_recv,
}
use adb_server_project.Sync.Files.{
  is_among, make_dir, Files, s_rdonly, s_wnronly, MadeDir, made, exists, refused, mkdirs_from,
  mkdirs, adb_dirstart, index_of, adb_file_creat, fstream_open,
}
use adb_server_project.Sync.Requests.{request}
use adb_server_project.Sync.Receive.{sync_recv, start_file}
use adb_server_project.Sync.Wire.{IsWire, attempt_success}
use adb_server_project.Sync.FromFile.{empty_of_length}
use adb_server_project.Sync.Roundtrip.{with_word_first, with_word_second, request_sent}
use adb_server_project.Sync.Answers.{read_two_words}

-- The same disk but for directories.
pub OnlyDirs : Files → Files → Type 0
OnlyDirs d d' = (made_dirs : List (List ℕ)) × (d' ≡ record d { dirs = made_dirs })

OnlyDirs-refl : (d : Files) → OnlyDirs d d
unfolding OnlyDirs
OnlyDirs-refl d = (d.dirs, refl)

OnlyDirs-trans : (a b c : Files) → OnlyDirs a b → OnlyDirs b c → OnlyDirs a c
unfolding OnlyDirs
OnlyDirs-trans a b c (l, e) (m, h) = (m, h ∙ ap (λ (x : Files). record x { dirs = m }) e)

made_only :
    (m : MadeDir) (path : List ℕ) (d : Files)
    → OnlyDirs d
        (elim m as (λ x. MadeDir × Files) [
          | made ↦ (made, record d { dirs = path ∷ d.dirs })
          | exists ↦ (exists, d)
          | refused ↦ (refused, d)
        ]).1
unfolding OnlyDirs
made_only made path d = (path ∷ d.dirs, refl)
made_only exists path d = (d.dirs, refl)
made_only refused path d = (d.dirs, refl)

make_dir-OnlyDirs : (path : List ℕ) (d : Files) → OnlyDirs d (make_dir path d).1
unfolding make_dir
make_dir-OnlyDirs path d = elim (Bool-cases (is_among path d.dirs)) [
  | inl there ↦ rw (there, make_dir) (OnlyDirs-refl d)
  | inr other ↦ rw (other, make_dir) (made_only (d.mkdir path) path d)
]

-- The loop over the directories ends, and only directories are made.
mkdirs_from-total :
    (n : ℕ) (name : List ℕ) (x : ℕ) (d : Files)
    → length name ≤ x + n
    → (r : Bool) × (d' : Files) × (mkdirs_from n name x d ≡ some (r, d')) × OnlyDirs d d'
unfolding mkdirs_from adb_dirstart index_of
mkdirs_from-total zero name x d h =
    let done : drop x name ≡ [] =
      empty_of_length (drop x name) (omega (arith, length-drop x name)) in
    (true, d, rw (done, mkdirs_from) refl, OnlyDirs-refl d)
mkdirs_from-total (suc n) name x d h = elim (Option-cases (adb_dirstart (drop x name))) [
  | inl e ↦ (true, d, rw (e, mkdirs_from) refl, OnlyDirs-refl d)
  | inr (i, e) ↦
      let end = x + i in
      let m = make_dir (take end name) d in
      let (r, d', run, only) =
        mkdirs_from-total n (set name end 92) (suc end) m.1
          (omega (arith, length-set name end 92)) in
      let more = OnlyDirs-trans d m.1 d' (make_dir-OnlyDirs (take end name) d) only in
      let (r', run', only') = by_made m.0 m.1 run (make_dir-OnlyDirs (take end name) d) more in
      (r'.0, r'.1, rw (e, mkdirs_from) run', only')
]
  where
    by_made :
        (m : MadeDir) (d1 : Files) {rest : Option (Bool × Files)} {r : Bool} {d' : Files}
        → rest ≡ some (r, d')
        → OnlyDirs d d1
        → OnlyDirs d d'
        → (r' : Bool × Files) × (elim m [ refused ↦ some (false, d1) | _ ↦ rest ] ≡ some r')
          × OnlyDirs d r'.1
    by_made made d1 {r = r} {d' = d'} run one all = ((r, d'), run, all)
    by_made exists d1 {r = r} {d' = d'} run one all = ((r, d'), run, all)
    by_made refused d1 run one all = ((false, d1), refl, one)

mkdirs-total :
    (name : List ℕ) (d : Files)
    → 0 < length name
    → (r : Bool) × (d' : Files) × (mkdirs name d ≡ some (r, d')) × OnlyDirs d d'
unfolding mkdirs
mkdirs-total [] d h = absurd (omega arith)
mkdirs-total (c ∷ name) d h = mkdirs_from-total (length name) (c ∷ name) 1 d (omega arith)

-- A file that cannot be read is not made.
adb_file_creat-absent :
    (path : List ℕ) (d : Files)
    → 0 < length path
    → d.content path ≡ none
    → (d' : Files) × (adb_file_creat path s_wnronly d ≡ some (none, d')) × OnlyDirs d d'
unfolding adb_file_creat fstream_open OnlyDirs
adb_file_creat-absent path d h absent =
    let (r, d', total, (l, e)) = mkdirs-total path d h in
    let still : d'.content path ≡ none = ap (λ x. x.content path) e ∙ absent in
    let opened : fstream_open path s_rdonly d' ≡ (none, d') = simp (still, fstream_open) refl in
    (d', simp (total, opened, adb_file_creat) refl, (l, e))

module _ (S : Type 0) (C : SyncChannel S) where
  start_absent :
      (fuel size : ℕ) (lpath : List ℕ) (d d' : Files) (s : S)
      → adb_file_creat lpath s_wnronly d ≡ some (none, d')
      → start_file S C fuel lpath d id_data size s ≡ some ((minus_one, d'), s)
  unfolding start_file
  start_absent fuel size lpath d d' s e = rw (e, start_file) refl

module _ (S : Type 0) (C : SyncChannel S) (W : IsWire S C) where
  -- On a channel that works, where the device begins to send data, sync_recv into a local file that
  -- is not there returns -1 and leaves the data unread: the file is not made, and nothing on the disk
  -- changes but that directories may have been made.
  pub sync_recv-absent :
      (fuel size : ℕ) (rpath lpath rest : List ℕ) (d : Files) (s : S)
      → W.Ready s
      → length rpath ≤ 1024
      → size < 2 ^ 32
      → W.incoming s ≡ two_words id_data size ++ rest
      → 0 < length lpath
      → d.content lpath ≡ none
      → (s' : S) × (d' : Files) × (sync_recv S C fuel rpath lpath d s ≡ some ((minus_one, d'), s'))
        × OnlyDirs d d'
        × (W.incoming s' ≡ rest)
  unfolding sync_recv
  sync_recv-absent fuel size rpath lpath rest d s r short hs e there absent =
      let (s1, asked, r1, sent1, kept1) = request_sent S C W id_recv rpath s r in
      let below : ltb 1024 (length rpath) ≡ false = ground (arith, short) in
      let (d', fails, only) = adb_file_creat-absent lpath d there absent in
      let bad = pure {S = S} (minus_one, d) in
      let by_head : List ℕ → Exec S (ℤ × Files) =
        λ head. with_word 0 head (λ id. with_word 4 head (λ z. start_file S C fuel lpath d id z)) in
      let (s2, read, r2, sent2, left) =
        read_two_words S C W id_data size rest bad by_head s1 r1 (kept1 ∙ e) in
      let by_size =
        λ (id : ℕ). with_word 4 (two_words id_data size) (λ z. start_file S C fuel lpath d id z) in
      (
        s2,
        d',
        rw below (
            attempt_success (request S C id_recv rpath) bad (attempt_read (C.read 8 0) bad by_head)
              s asked
            ∙ read
            ∙ with_word_first id_data size by_size s2 (omega arith)
            ∙ with_word_second id_data size (start_file S C fuel lpath d id_data) s2 hs
            ∙ start_absent S C fuel size lpath d d' s2 fails),
        only,
        left,
      )
