-- ===== src/Stm/Client/Chunks.antt =====
-- Download of bridge/internal/project/download.go over ReadFile of bridge/internal/stm/client.go.
use phcremote_control.Prelude.{
  ℕ, suc, ◌≤◌, ◌<◌, ◌≡◌, refl, Bool, Option, ◌⊎◌, inl, inr, List, [], ◌∷◌, length, arith, All,
}
use phcremote_control.Prelude.Int.{ℤ, pos}
use phcremote_control.Text.{codes, is_space}
use phcremote_control.Text.Decimal.{IsInt64}
use phcremote_control.Project.Download.{FileChunk, ChunkReader, max_chunks, max_zip_bytes, download}
use phcremote_control.Project.Download.Chunks.{
  Serves, ends, reads, InOrder, joined, download_complete,
}
use phcremote_control.Project.Errors as Project
use phcremote_control.Stm.Errors.{Result, ok, err, ◌>>=◌}
use phcremote_control.Stm.Value.{
  Value, int, bytes, struct, no_members, member, int_member, bytes_member, has_member,
}
use phcremote_control.Stm.Request.{encode_call}
use phcremote_control.Stm.Xml.Written.{Style, HasLayout, write_response, IsSendable}
use phcremote_control.Stm.Xml.RoundTrip.{decode-write_response}
use phcremote_control.Stm.Client.{
  max_response_bytes, body, Exchange, Client, record_sanitized, Chunk, chunk_of, read_outcome,
  read_file,
}
use phcremote_control.Stm.Endpoint.{endpoint_url}

-- The document's value for a chunk.
abbrev pub chunk_value : FileChunk → ℤ → Value
chunk_value k crc = struct (
    member (codes "cur") (int k.cur) (
      member (codes "total") (int k.total)
        (member (codes "crc") (int crc) (member (codes "bin") (bytes k.bin) no_members))))

abbrev pub IsCarried : FileChunk → ℤ → Type 0
IsCarried k crc = IsInt64 k.cur × IsInt64 k.total × IsInt64 crc × All (λ b. b < 256) k.bin

chunk_value-IsSendable :
    (k : FileChunk) (crc : ℤ) → IsCarried k crc → IsSendable (chunk_value k crc)
unfolding IsSendable is_space has_member
chunk_value-IsSendable k crc h =
    (refl, refl, h.0, (refl, refl, h.1, (refl, refl, h.2, (refl, refl, h.3, tt))))

chunk_of-chunk_value :
    (k : FileChunk) (crc : ℤ)
    → chunk_of (chunk_value k crc)
      ≡ ok (record { cur = k.cur; total = k.total; crc = crc; bin = k.bin })
unfolding chunk_of int_member bytes_member
chunk_of-chunk_value k crc = refl

abbrev found_chunk : Result Chunk → FileChunk ⊎ Project.ReadError
found_chunk (ok k) = inl (record { cur = k.cur; total = k.total; bin = k.bin })
found_chunk (err e) = inr (Project.from_stm e)

module _ {W : Type 0} (post : Exchange W) where
  -- What Download calls: ReadFile(ctx, 0, i, 1).
  unfoldable pub file_reader : ChunkReader (Client W)
  unfolding read_file
  file_reader i c = let (k, c') = read_file post (pos 0) (pos i) (pos 1) c in (found_chunk k, c')

  -- From index `i` on, the requests for the chunks are answered with documents of them, each in a
  -- style of its own and of at most max_response_bytes bytes.
  pub data Sends : ℕ → Client W → List FileChunk → Client W → Type 0 where
    closes : {i : ℕ} {c : Client W} → Sends i c [] c
    sends :
        (style : Style) (n : ℕ) (crc : ℤ) {i : ℕ} {c c' : Client W} {w : W} {k : FileChunk}
        {b : Option Bool} {ks : List FileChunk}
        → post
            (endpoint_url c.endpoint)
            (encode_call (codes "service.stm.readFile") (pos 0 ∷ pos i ∷ pos 1 ∷ []))
            c.world
          ≡ (
            record { sanitized = b; outcome = body n (write_response style (chunk_value k crc)) },
            w,
          )
        → HasLayout style
        → n ≤ max_response_bytes
        → IsCarried k crc
        → Sends (suc i) (record_sanitized b (record c { world = w })) ks c'
        → Sends i c (k ∷ ks) c'

  read_outcome-chunk :
      (style : Style) (n : ℕ) (k : FileChunk) (crc : ℤ)
      → HasLayout style
      → n ≤ max_response_bytes
      → IsCarried k crc
      → (read_outcome (body n (write_response style (chunk_value k crc))) >>= chunk_of)
        ≡ ok (record { cur = k.cur; total = k.total; crc = crc; bin = k.bin })
  unfolding read_outcome
  read_outcome-chunk style n k crc l h carried = ground (
    arith,
    decode-write_response style (chunk_value k crc) l (chunk_value-IsSendable k crc carried),
    chunk_of-chunk_value k crc,
  )

  Serves-sends :
      (i : ℕ) (c c' : Client W) (ks : List FileChunk)
      → Sends i c ks c'
      → Serves file_reader i c ks c'
  unfolding file_reader
  Serves-sends i c _ [] closes = ends
  Serves-sends i c c' (k ∷ ks) (sends style n crc got l small carried rest) =
      reads (rw (got, read_outcome-chunk style n k crc l small carried) refl)
        (Serves-sends (suc i) _ c' ks rest)

  -- An archive of between 1 and max_chunks nonempty chunks that agree on their total and together have
  -- at most max_zip_bytes bytes arrives whole, if the STM answers the requests for them in order, each
  -- with a response document of at most max_response_bytes bytes, in whatever style, whose integers
  -- have 64 bits and whose payload is of bytes.
  pub download-Sends :
      (total : ℕ) (c c' : Client W) (ks : List FileChunk)
      → Sends 0 c ks c'
      → InOrder 0 total ks
      → 0 < total
      → total ≤ max_chunks
      → length (joined ks) ≤ max_zip_bytes
      → download file_reader c ≡ (Project.ok (joined ks), c')
  download-Sends total c c' ks s o =
      download_complete file_reader total c c' ks (Serves-sends 0 c c' ks s) o
