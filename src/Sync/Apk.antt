-- ===== src/Sync/Apk.antt =====
-- sync_send with the test of an APK, on an archive that the zip reader can open.
use adb_server_project.Common.{
  ℕ, ◌+◌, ◌≤◌, ◌≡◌, refl, ap, sym, ◌∙◌, Bool, true, false, not, List, [], ◌∷◌, ◌++◌, Option, some,
  if◌then◌else◌, ◌==◌, ltb, take, length, arith, Bool-cases, inl, inr,
}
use adb_server_project.Common.Exec.{pure}
use adb_server_project.Common.Int.{ℤ}
use adb_server_project.CString.Split.{IsText}
use adb_server_project.Zip.{Zipentry, Zipfile, ◌>>=?◌}
use adb_server_project.Zip.File.{init_zipfile, lookup_zipentry}
use adb_server_project.Zip.Layout.{Member, entries_at}
use adb_server_project.Zip.Members.{IsArchive}
use adb_server_project.Zip.Lookup.{first_prefix, AreTexts, names_of, lookup_zipentry-first_prefix}
use adb_server_project.Sync.{SyncChannel, one}
use adb_server_project.Sync.Files.{
  Files, adb_file_open, adb_file_lseek, adb_file_read, fstream_open,
}
use adb_server_project.Sync.Send.{
  bytes, refused, verify_apk, manifest, verdict, check_manifest, verify_bytes, send_verified,
  sync_send, sync_send_buffer,
}
use adb_server_project.Sync.FromFile.{take_all}

open_step :
    (lpath buf : List ℕ) (d : Files)
    → d.content lpath ≡ some buf
    → verify_apk lpath d ≡ verify_bytes d.memory (take (length buf + 0) buf) (length buf + 0)
unfolding verify_apk adb_file_open adb_file_lseek adb_file_read fstream_open
open_step lpath buf d there = rw (there, verify_apk) refl

-- The test for a text, which computes on a literal.
abbrev is_text : List ℕ → Bool
is_text [] = true
is_text (c ∷ s) = let rest = is_text s in if c == 0 then false else rest

IsText-is_text : (s : List ℕ) → is_text s ≡ true → IsText s
IsText-is_text [] e = tt
IsText-is_text (c ∷ s) e = elim (Bool-cases (c == 0)) [
  | inl zero_there ↦ let never : false ≡ true = rw zero_there at e in cc
  | inr other ↦ ((λ eq. ground arith), IsText-is_text s (rw other at e))
]

verify_step :
    (lpath buf : List ℕ) (d : Files) (file : Zipfile) (found : List Zipentry)
    → d.content lpath ≡ some buf
    → d.memory ≡ true
    → init_zipfile true buf (length buf) ≡ some (some file)
    → lookup_zipentry file (manifest ++ 0 ∷ []) ≡ some found
    → verify_apk lpath d ≡ some (verdict buf found)
unfolding verify_bytes check_manifest
verify_step lpath buf d file found there memory opened looked =
    let size : length buf + 0 ≡ length buf = omega arith in
    let all : take (length buf) buf ≡ buf = take_all (length buf) buf (omega arith) in
    let same : (length buf == length buf) ≡ true = ground arith in
    open_step lpath buf d there
    ∙ ap (λ k. verify_bytes d.memory (take k buf) k) size
    ∙ ap (λ b. verify_bytes d.memory b (length buf)) all
    ∙ ap (λ m. verify_bytes m buf (length buf)) memory
    ∙ ap
        (λ t.
          if not t
          then some (refused one)
          else init_zipfile true buf (length buf) >>=? check_manifest buf)
        same
    ∙ ap (λ o. o >>=? check_manifest buf) opened
    ∙ ap (λ o. o >>=? λ z. some (verdict buf z)) looked

-- Behind the test the bytes are sent as sync_send_buffer sends a buffer.
buffer_step :
    (S : Type 0) (C : SyncChannel S) (lpath rpath buf : List ℕ) (mtime mode : ℕ) (d : Files) (s : S)
    → length rpath ≤ 1024
    → sync_send_buffer S C (some buf) (length buf) rpath mtime mode s
      ≡ send_verified S C lpath rpath mtime mode (some buf) d s
unfolding sync_send_buffer send_verified
buffer_step S C lpath rpath buf mtime mode d s short =
    let below : ltb 1024 (length rpath) ≡ false = ground (arith, short) in rw below refl

-- For a file that is an archive whose names have no NUL, with memory for it and a remote path of at
-- most 1,024 bytes, sync_send with the test of an APK returns 1 and sends nothing where no member's
-- name is a prefix of "AndroidManifest.xml"; else, be the member itself there or only one with a name
-- like "Android" or an empty one, it does exactly what sync_send_buffer does with the file's bytes.
pub sync_send-IsArchive :
    (S : Type 0) (C : SyncChannel S) (lpath rpath buf : List ℕ) (mtime mode : ℕ) (d : Files)
    → (ms : List Member) (h : IsArchive buf ms) (s : S) → d.content lpath ≡ some buf
    → d.memory ≡ true
    → length rpath ≤ 1024
    → AreTexts (names_of ms [])
    → sync_send S C lpath rpath mtime mode true d s
      ≡ elim (first_prefix manifest (entries_at h.offset ms []) (names_of ms []))
          as (λ x. Option (ℤ × S)) [
            | [] ↦ some (one, s)
            | e ∷ rest ↦ sync_send_buffer S C (some buf) (length buf) rpath mtime mode s
          ]
unfolding sync_send
sync_send-IsArchive S C lpath rpath buf mtime mode d ms h s there memory short texts =
    let (file, opened, looked) =
      lookup_zipentry-first_prefix buf manifest ms h texts (IsText-is_text manifest refl) in
    let found = first_prefix manifest (entries_at h.offset ms []) (names_of ms []) in
    let below : ltb 1024 (length rpath) ≡ false = ground (arith, short) in
    let tested = verify_step lpath buf d file found there memory opened looked in
    rw (below, tested) (by_verdict found)
  where
    by_verdict :
        (found : List Zipentry)
        → elim (verdict buf found) as (λ x. S → Option (ℤ × S)) [
          | bytes buffer ↦ send_verified S C lpath rpath mtime mode (some buffer) d
          | refused r ↦ pure r
        ]
            s
          ≡ elim found as (λ x. Option (ℤ × S)) [
            | [] ↦ some (one, s)
            | e ∷ rest ↦ sync_send_buffer S C (some buf) (length buf) rpath mtime mode s
          ]
    by_verdict [] = refl
    by_verdict (e ∷ rest) = sym (buffer_step S C lpath rpath buf mtime mode d s short)
