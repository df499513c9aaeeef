-- ===== src/Zip/Extract.antt =====
-- decompress_zipentry on a member of an archive.
use adb_server_project.Common.{
  ℕ, ◌≤◌, ◌≡◌, refl, sym, ap, ◌∙◌, true, false, List, [], ◌++◌, some, ltb, drop, length, arith,
  take-length-append, append-nil, length-append,
}
use adb_server_project.Packet.{success}
use adb_server_project.Zip.{Zipentry}
use adb_server_project.Zip.File.{Zlib, memcpy, uninflate, decompress_zipentry}

memcpy-append :
    (out bytes rest : List ℕ)
    → length bytes ≤ length out
    → memcpy out (bytes ++ rest) (length bytes) ≡ some (bytes ++ drop (length bytes) out)
unfolding memcpy
memcpy-append out bytes rest h =
    let room : ltb (length out) (length bytes) ≡ false = ground (arith, h) in
    let there : ltb (length (bytes ++ rest)) (length bytes) ≡ false =
      ground (arith, length-append bytes rest) in
    rw (room, there, take-length-append bytes rest) refl

memcpy_whole :
    (out bytes : List ℕ)
    → length bytes ≤ length out
    → memcpy out bytes (length bytes) ≡ some (bytes ++ drop (length bytes) out)
memcpy_whole out bytes h =
    ap (λ s. memcpy out s (length bytes)) (sym (append-nil bytes)) ∙ memcpy-append out bytes [] h

-- What zlib documents: inflate undoes deflate where the output has room.
pub record IsZlib (Z : Zlib) : Type 0 where
  pub deflate : List ℕ → List ℕ
  pub ready : Z.inflate_init2 ≡ true
  pub undoes :
      (bytes : List ℕ) (unlen : ℕ)
      → length bytes ≤ unlen
      → Z.inflate (deflate bytes) unlen ≡ (bytes, true)

module _ (Z : Zlib) (zlib : IsZlib Z) where
  -- What stands at an entry's data: the contents themselves, or deflated.
  pub data HasContents (buf contents : List ℕ) (e : Zipentry) : Type 0 where
    stored :
        (rest : List ℕ)
        → e.compression_method ≡ 0
        → e.uncompressed_size ≡ length contents
        → drop e.content buf ≡ contents ++ rest
        → HasContents buf contents e
    deflated :
        (rest : List ℕ)
        → e.compression_method ≡ 8
        → e.compressed_size ≡ length (zlib.deflate contents)
        → drop e.content buf ≡ zlib.deflate contents ++ rest
        → HasContents buf contents e

  -- For an entry at whose data stand its contents, stored or deflated by zlib, decompress_zipentry into
  -- an array with room for them succeeds and leaves the contents at the start of the array and the rest
  -- of the array as it was.
  pub decompress_zipentry-HasContents :
      (buf contents out : List ℕ) (e : Zipentry) (bufsize : ℕ)
      → HasContents buf contents e
      → length contents ≤ bufsize
      → length contents ≤ length out
      → decompress_zipentry Z buf e out bufsize
        ≡ some (success, contents ++ drop (length contents) out)
  unfolding decompress_zipentry uninflate
  decompress_zipentry-HasContents buf contents out e bufsize (stored rest m size there) enough
        room =
      rw (m, size, there, memcpy-append out contents rest room) refl
  decompress_zipentry-HasContents buf contents out e bufsize (deflated rest m size there) enough
        room =
      let packed = zlib.deflate contents in
      let inside : ltb (length (packed ++ rest)) (length packed) ≡ false =
        ground (arith, length-append packed rest) in
      let copied : memcpy out contents (length contents)
          ≡ some (contents ++ drop (length contents) out) =
        memcpy_whole out contents room in
      rw
        (
          m,
          there,
          zlib.ready,
          size,
          inside,
          take-length-append packed rest,
          zlib.undoes contents bufsize enough,
          copied,
        )
        refl
