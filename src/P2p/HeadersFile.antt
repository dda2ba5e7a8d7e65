-- ===== src/P2p/HeadersFile.antt =====
-- The headers file of src/p2p/legacy.rs. A file is the list of its bytes. `encode::serialize` and
-- `encode::deserialize` of the crate `bitcoin` are parameters; errors of the disk are left out.
use btck_rust_node.Common.{
  ℕ, suc, ◌+◌, ◌≡◌, ◌<◌, refl, sym, ap, ◌∙◌, true, false, Option, none, some, List, [], ◌∷◌, ◌++◌,
  length, ◌==◌, if◌then◌else◌, arith, length-append,
}
use mathlib.Core.List.{append_assoc, append-nil}
use btck_rust_node.Common.Int.{ℤ}
use btck_rust_node.Chain.{BlockHash}
use btck_rust_node.P2p.Headers.{BlockHeader, PeerManager, with_start_height}

-- The buffer of `load_headers_from_disk`, as far as it is filled, and the headers read so far.
pub record Read : Type 0 where
  pub buffer : List ℕ
  pub headers : List BlockHeader

abbrev pub start_read : Read
start_read = record { buffer = []; headers = [] }

module _ (serialize : BlockHeader → List ℕ) (deserialize : List ℕ → Option BlockHeader) where
  -- A byte goes into the buffer; a full buffer is a header.
  unfoldable pub read_byte : ℕ → Read → Option Read
  read_byte b s =
      let buffer = s.buffer ++ b ∷ [] in
      if length buffer == 80
      then elim (deserialize buffer) [
        | none ↦ none
        | some h ↦ some (record { buffer = []; headers = s.headers ++ h ∷ [] })
      ]
      else some (record s { buffer = buffer })

  -- The loop of `load_headers_from_disk`: what the end of the file cuts off is dropped, and a header
  -- that cannot be decoded is an error.
  unfoldable pub read_all : List ℕ → Read → Option (List BlockHeader)
  read_all [] s = some s.headers
  read_all (b ∷ bs) s = elim (read_byte b s) [ none ↦ none | some s' ↦ read_all bs s' ]

  -- `load_headers_from_disk`, of a file that may be missing.
  unfoldable pub load_headers_from_disk : Option (List ℕ) → Option (List BlockHeader)
  load_headers_from_disk none = some []
  load_headers_from_disk (some file) = read_all file start_read

  unfoldable pub save_headers_to_disk : List BlockHeader → List ℕ
  save_headers_to_disk [] = []
  save_headers_to_disk (header ∷ hs) = serialize header ++ save_headers_to_disk hs

  unfoldable pub append_header_to_disk : List ℕ → BlockHeader → List ℕ
  append_header_to_disk file header = file ++ serialize header

  -- `append_header_to_disk` for each header in turn.
  unfoldable pub append_each : List ℕ → List BlockHeader → List ℕ
  append_each file [] = file
  append_each file (h ∷ hs) = append_each (append_header_to_disk file h) hs

  -- `with_start_height` on the file that is there: an error counts as no headers.
  unfoldable pub start_from_disk :
      BlockHash → (ℕ → Option BlockHash) → Option (List ℕ) → ℤ → PeerManager
  start_from_disk g checkpoint file start_height = elim (load_headers_from_disk file) [
    | none ↦ with_start_height g checkpoint [] start_height
    | some hs ↦ with_start_height g checkpoint hs start_height
  ]

  read_byte-fill :
      (b : ℕ) (buffer : List ℕ) (headers : List BlockHeader) {h : BlockHeader}
      → length buffer + 1 ≡ 80
      → deserialize (buffer ++ b ∷ []) ≡ some h
      → read_byte b (record { buffer = buffer; headers = headers })
        ≡ some (record { buffer = []; headers = headers ++ h ∷ [] })
  unfolding read_byte
  read_byte-fill b buffer headers n d =
      let full : length (buffer ++ b ∷ []) == 80 ≡ true =
        ground (arith, length-append buffer (b ∷ []), n) in
      rw (full, d) refl

  read_byte-wait :
      (b : ℕ) (buffer : List ℕ) (headers : List BlockHeader)
      → length buffer + 1 < 80
      → read_byte b (record { buffer = buffer; headers = headers })
        ≡ some (record { buffer = buffer ++ b ∷ []; headers = headers })
  unfolding read_byte
  read_byte-wait b buffer headers n =
      let short : length (buffer ++ b ∷ []) == 80 ≡ false =
        ground (arith, length-append buffer (b ∷ []), n) in
      rw short refl

  -- The 80 bytes of a header are read as that header.
  read_all-chunk :
      (bs : List ℕ) (b : ℕ) (buffer rest : List ℕ) (headers : List BlockHeader) {h : BlockHeader}
      → length buffer + suc (length bs) ≡ 80
      → deserialize (buffer ++ b ∷ bs) ≡ some h
      → read_all ((b ∷ bs) ++ rest) (record { buffer = buffer; headers = headers })
        ≡ read_all rest (record { buffer = []; headers = headers ++ h ∷ [] })
  unfolding read_all
  read_all-chunk [] b buffer rest headers n d =
      rw (read_byte-fill b buffer headers n d, read_all) refl
  read_all-chunk (c ∷ bs) b buffer rest headers n d =
      rw (read_byte-wait b buffer headers (omega (arith, n)), read_all)
        (read_all-chunk bs c (buffer ++ b ∷ []) rest headers
          (omega (arith, n, length-append buffer (b ∷ [])))
          (ap deserialize (append_assoc buffer (b ∷ []) (c ∷ bs)) ∙ d))

  -- What is cut off is dropped.
  read_all_tail :
      (tail buffer : List ℕ) (headers : List BlockHeader)
      → length buffer + length tail < 80
      → read_all tail (record { buffer = buffer; headers = headers }) ≡ some headers
  unfolding read_all
  read_all_tail [] buffer headers n = refl
  read_all_tail (b ∷ tail) buffer headers n =
      rw (read_byte-wait b buffer headers (omega (arith, n)), read_all)
        (read_all_tail tail (buffer ++ b ∷ []) headers
          (omega (arith, n, length-append buffer (b ∷ []))))

  save-append :
      (hs ks : List BlockHeader)
      → save_headers_to_disk (hs ++ ks) ≡ save_headers_to_disk hs ++ save_headers_to_disk ks
  unfolding save_headers_to_disk
  save-append [] ks = refl
  save-append (h ∷ hs) ks =
      ap (λ bs. serialize h ++ bs) (save-append hs ks)
      ∙ sym (append_assoc (serialize h) (save_headers_to_disk hs) (save_headers_to_disk ks))

  append_each_lem :
      (hs : List BlockHeader) (file : List ℕ)
      → append_each file hs ≡ file ++ save_headers_to_disk hs
  unfolding append_each append_header_to_disk save_headers_to_disk
  append_each_lem [] file = sym (append-nil file)
  append_each_lem (h ∷ hs) file =
      append_each_lem hs (file ++ serialize h)
      ∙ append_assoc file (serialize h) (save_headers_to_disk hs)

  module _ (size : (h : BlockHeader) → length (serialize h) ≡ 80)
      (back : (h : BlockHeader) → deserialize (serialize h) ≡ some h) where
    read_all-header :
        (h : BlockHeader) (rest : List ℕ) (headers : List BlockHeader)
        → read_all (serialize h ++ rest) (record { buffer = []; headers = headers })
          ≡ read_all rest (record { buffer = []; headers = headers ++ h ∷ [] })
    read_all-header h rest headers = chunk (serialize h) (size h) (back h)
      where
        chunk :
            (bs : List ℕ)
            → length bs ≡ 80
            → deserialize bs ≡ some h
            → read_all (bs ++ rest) (record { buffer = []; headers = headers })
              ≡ read_all rest (record { buffer = []; headers = headers ++ h ∷ [] })
        chunk [] n d = absurd (omega (arith, n))
        chunk (b ∷ bs) n d = read_all-chunk bs b [] rest headers (omega (arith, n)) d

    read_all-save :
        (hs : List BlockHeader) (tail : List ℕ) (headers : List BlockHeader)
        → length tail < 80
        → read_all (save_headers_to_disk hs ++ tail) (record { buffer = []; headers = headers })
          ≡ some (headers ++ hs)
    unfolding save_headers_to_disk
    read_all-save [] tail headers n =
        read_all_tail tail [] headers (omega (arith, n)) ∙ ap some (sym (append-nil headers))
    read_all-save (h ∷ hs) tail headers n =
        ap (λ bs. read_all bs (record { buffer = []; headers = headers }))
          (append_assoc (serialize h) (save_headers_to_disk hs) tail)
        ∙ read_all-header h (save_headers_to_disk hs ++ tail) headers
        ∙ read_all-save hs tail (headers ++ h ∷ []) n
        ∙ ap some (append_assoc headers (h ∷ []) hs)

    -- A node that finds the file that was saved and then appended to, header by header, starts from
    -- all of those headers, even if the end of the file holds a header that was cut off.
    -- `serialize` writes 80 bytes, from which `deserialize` reads the header back.
    pub start_from_disk-append_each :
        (hs ks : List BlockHeader) (tail : List ℕ) (g : BlockHash)
        (checkpoint : ℕ → Option BlockHash) (start_height : ℤ)
        → length tail < 80
        → start_from_disk g checkpoint
            (some (append_each (save_headers_to_disk hs) ks ++ tail))
            start_height
          ≡ with_start_height g checkpoint (hs ++ ks) start_height
    unfolding start_from_disk load_headers_from_disk
    start_from_disk-append_each hs ks tail g checkpoint start_height n =
        rw
          (
            append_each_lem ks (save_headers_to_disk hs) ∙ sym (save-append hs ks),
            read_all-save (hs ++ ks) tail [] n,
            start_from_disk,
          )
          refl
