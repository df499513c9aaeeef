-- ===== src/Sync/Listing.antt =====
-- sync_ls and what is built on it: the listing of a remote directory is read to its end, and forgotten.
use adb_server_project.Common.{
  ℕ, zero, suc, ◌≤◌, ◌<◌, ◌≡◌, refl, sym, ap, ◌∙◌, false, ◌||◌, List, [], ◌∷◌, ◌++◌, Option, some,
  ltb, drop, take, length, arith, length-append, take-length-append, drop-length-append,
}
use adb_server_project.Common.Exec.{Exec}
use adb_server_project.Common.Int.{ℤ}
use adb_server_project.Zip.{read_le_int}
use adb_server_project.Zip.Layout.{le_int, read_le_int-le_int}
use adb_server_project.Sync.{
  SyncChannel, ok, attempt_read, with_word, is_negative, above_int, two_words, id_list, id_dent,
  id_done,
}
use adb_server_project.Sync.Files.{Files}
use adb_server_project.Sync.Requests.{request, give_up, handle_dent, read_listing, sync_ls}
use adb_server_project.Sync.Lists.{Copyinfo, LsCookie}
use adb_server_project.Sync.Copies.{
  remote_build_list, each_remote_dir, pull_files, copy_remote_dir_local, with_slash, is_empty,
}
use adb_server_project.Sync.Wire.{IsWire, attempt_success, attempt_read_success}
use adb_server_project.Sync.Roundtrip.{request_sent}

-- An entry as the device sends it.
pub record Dent : Type 0 where
  pub mode : ℕ
  pub size : ℕ
  pub time : ℕ
  pub name : List ℕ

abbrev pub dent_head : ℕ → ℕ → ℕ → ℕ → ℕ → List ℕ
dent_head id mode size time namelen =
    le_int id ++ le_int mode ++ le_int size ++ le_int time ++ le_int namelen

abbrev pub listing_bytes : List Dent → List ℕ → List ℕ
listing_bytes [] rest = dent_head id_done 0 0 0 0 ++ rest
listing_bytes (e ∷ es) rest =
    dent_head id_dent e.mode e.size e.time (length e.name) ++ (e.name ++ listing_bytes es rest)

-- No name is longer than the buffer for it.
abbrev pub AreNamed : List Dent → Type 0
AreNamed [] = Unit {0}
AreNamed (e ∷ es) = (length e.name ≤ 256) × AreNamed es

module _ (S : Type 0) (C : SyncChannel S) where
  dent_done :
      (next : Exec S ℤ) (bytes : List ℕ) (s : S)
      → read_le_int bytes ≡ some id_done
      → handle_dent S C next bytes s ≡ some (ok, s)
  unfolding handle_dent
  dent_done next bytes s e = rw (with_word, e) refl

  dent_name :
      (next : Exec S ℤ) (len : ℕ) (bytes : List ℕ) (s : S)
      → read_le_int bytes ≡ some id_dent
      → read_le_int (drop 16 bytes) ≡ some len
      → (above_int len 256 || is_negative len) ≡ false
      → handle_dent S C next bytes s ≡ attempt_read (C.read len 0) (give_up S C) (λ name. next) s
  unfolding handle_dent
  dent_name next len bytes s e l fits = rw (with_word, e, l, fits) refl

fits_name : (n : ℕ) → n ≤ 256 → (above_int n 256 || is_negative n) ≡ false
fits_name n h = ground arith

module _ (S : Type 0) (C : SyncChannel S) (W : IsWire S C) where
  -- A run of the loop to the end of the listing.
  record Lists (rest : List ℕ) (s : S) (run : Option (ℤ × S)) : Type 0 where
    after : S
    returns : run ≡ some (ok, after)
    ready : W.Ready after
    keeps : W.sent after ≡ W.sent s
    leaves : W.incoming after ≡ rest

  -- The 20 bytes of an entry are read.
  read_dent :
      (n : ℕ) (head rest : List ℕ) (s : S)
      → W.Ready s
      → W.incoming s ≡ head ++ rest
      → length head ≡ 20
      → (s' : S) × (read_listing S C (suc n) s ≡ handle_dent S C (read_listing S C n) head s')
        × W.Ready s'
        × (W.sent s' ≡ W.sent s)
        × (W.incoming s' ≡ rest)
  unfolding read_listing
  read_dent n head rest s r e size =
      let room : 20 ≤ length (W.incoming s) =
        omega (arith, ap length e, length-append head rest, size) in
      let (s', got, ready, sent, left) = W.reads 20 0 s r room in
      let bytes : take 20 (W.incoming s) ≡ head =
        ap (take 20) e
        ∙ ap (λ k. take k (head ++ rest)) (sym size)
        ∙ take-length-append head rest in
      let behind : drop 20 (W.incoming s) ≡ rest =
        ap (drop 20) e
        ∙ ap (λ k. drop k (head ++ rest)) (sym size)
        ∙ drop-length-append head rest in
      (
        s',
        attempt_read_success (C.read 20 0) (give_up S C) (handle_dent S C (read_listing S C n)) s
              got
            ∙ ap (λ b. handle_dent S C (read_listing S C n) b s') bytes,
        ready,
        sent,
        left ∙ behind,
      )

  read_listing-Lists :
      (es : List Dent) (n : ℕ) (rest : List ℕ) (s : S)
      → W.Ready s
      → W.incoming s ≡ listing_bytes es rest
      → AreNamed es
      → length es < n
      → Lists rest s (read_listing S C n s)
  read_listing-Lists es zero rest s r e named h = absurd (omega arith)
  read_listing-Lists [] (suc n) rest s r e named h =
      let head = dent_head id_done 0 0 0 0 in
      let (s1, got, ready, sent, left) = read_dent n head rest s r e (omega arith) in
      record {
        after = s1;
        returns =
            got
            ∙ dent_done S C (read_listing S C n) head s1
                (read_le_int-le_int id_done (drop 4 head) (omega arith));
        ready = ready;
        keeps = sent;
        leaves = left;
      }
  read_listing-Lists (d ∷ es) (suc n) rest s r e named h =
      let size = length d.name in
      let head = dent_head id_dent d.mode d.size d.time size in
      let more = listing_bytes es rest in
      let (s1, got1, r1, sent1, left1) = read_dent n head (d.name ++ more) s r e (omega arith) in
      let room : size ≤ length (W.incoming s1) =
        omega (arith, ap length left1, length-append d.name more) in
      let (s2, got2, r2, sent2, left2) = W.reads size 0 s1 r1 room in
      let left3 : W.incoming s2 ≡ more =
        left2 ∙ ap (drop size) left1 ∙ drop-length-append d.name more in
      let short : size ≤ 256 = named.0 in
      let first = read_le_int-le_int id_dent (drop 4 head) (omega arith) in
      let last = read_le_int-le_int size [] (omega (arith, short)) in
      let ih = read_listing-Lists es n rest s2 r2 left3 named.1 (omega arith) in
      record {
        after = ih.after;
        returns =
            got1
            ∙ dent_name S C (read_listing S C n) size head s1 first last (fits_name size short)
            ∙ attempt_read_success (C.read size 0) (give_up S C) (λ name. read_listing S C n) s1
                got2
            ∙ ih.returns;
        ready = ih.ready;
        keeps = ih.keeps ∙ sent2 ∙ sent1;
        leaves = ih.leaves;
      }

  -- On a channel that works, on which entries with names of at most 256 bytes and ID_DONE come in,
  -- sync_ls for a path of at most 1,024 bytes, with more fuel than there are entries, sends the
  -- request, reads the listing to its end and returns 0.
  pub sync_ls-listing :
      (A : Type 0) (cookie : A) (es : List Dent) (fuel : ℕ) (path rest : List ℕ) (s : S)
      → W.Ready s
      → W.incoming s ≡ listing_bytes es rest
      → AreNamed es
      → length path ≤ 1024
      → length es < fuel
      → (s' : S) × (sync_ls S C fuel path cookie s ≡ some (ok, s'))
        × (W.sent s' ≡ W.sent s ++ (two_words id_list (length path) ++ path))
        × (W.incoming s' ≡ rest)
  unfolding sync_ls
  sync_ls-listing A cookie es fuel path rest s r e named short enough =
      let (s1, asked, ready, sent, kept) = request_sent S C W id_list path s r in
      let run = read_listing-Lists es fuel rest s1 ready (kept ∙ e) named enough in
      let below : ltb 1024 (length path) ≡ false = ground (arith, short) in
      (
        run.after,
        rw below (
            attempt_success (request S C id_list path) (give_up S C) (read_listing S C fuel) s asked
            ∙ run.returns),
        run.keeps ∙ sent,
        run.leaves,
      )

  remote_build_list-listing :
      (es : List Dent) (depth fuel : ℕ) (rpath lpath rest : List ℕ) (files : List Copyinfo) (s : S)
      → W.Ready s
      → W.incoming s ≡ listing_bytes es rest
      → AreNamed es
      → length rpath ≤ 1024
      → length es < fuel
      → (s' : S) × (remote_build_list S C (suc depth) fuel rpath lpath files s
          ≡ some ((ok, files), s'))
        × (W.sent s' ≡ W.sent s ++ (two_words id_list (length rpath) ++ rpath))
        × (W.incoming s' ≡ rest)
  unfolding remote_build_list each_remote_dir
  remote_build_list-listing es depth fuel rpath lpath rest files s r e named short enough =
      let args : LsCookie = record {
        filelist = files;
        dirlist = [];
        args_rpath = rpath;
        args_lpath = lpath;
      } in
      let (s', listed, sent, left) =
        sync_ls-listing LsCookie args es fuel rpath rest s r e named short enough in
      (s', rw (listed, remote_build_list) refl, sent, left)

  -- Whatever such a listing holds, copy_remote_dir_local between paths that are not empty returns 0
  -- after the one request for it, with the local disk as it was: nothing of a remote directory is
  -- copied, since sync_ls does not hand on the entries.
  pub copy_remote_dir_local-listing :
      (es : List Dent) (depth fuel : ℕ) (rpath lpath rest : List ℕ) (d : Files) (s : S)
      → W.Ready s
      → W.incoming s ≡ listing_bytes es rest
      → AreNamed es
      → is_empty rpath ≡ false
      → is_empty lpath ≡ false
      → length (with_slash rpath) ≤ 1024
      → length es < fuel
      → (s' : S) × (copy_remote_dir_local S C (suc depth) fuel rpath lpath d s ≡ some ((ok, d), s'))
        × (W.sent s'
            ≡ W.sent s ++ (two_words id_list (length (with_slash rpath)) ++ with_slash rpath))
        × (W.incoming s' ≡ rest)
  unfolding copy_remote_dir_local pull_files
  copy_remote_dir_local-listing es depth fuel rpath lpath rest d s r e named there here short
        enough =
      let (s', listed, sent, left) =
        remote_build_list-listing es depth fuel (with_slash rpath) (with_slash lpath) rest [] s r e
          named short enough in
      (s', rw (there, here, listed, copy_remote_dir_local) refl, sent, left)
