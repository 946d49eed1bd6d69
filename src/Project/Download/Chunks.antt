-- ===== src/Project/Download/Chunks.antt =====
-- Download of bridge/internal/project/download.go on the chunks that a reader serves.
use mathlib.Core.List.{append-nil, append_assoc}
use phcremote_control.Prelude.{
  ℕ, zero, suc, ◌+◌, ◌≤◌, ◌<◌, ◌≡◌, ◌≢◌, refl, sym, subst, ap, ◌∙◌, true, false, ◌⊎◌, inl, inr,
  Option, none, some, List, [], ◌∷◌, ◌++◌, length, length-append, arith, leb, Bool-cases,
  Option-cases,
}
use phcremote_control.Prelude.Int.{ℤ, pos, pos_part}
use phcremote_control.Project.Errors.{ReadError, Result, ok, err}
use phcremote_control.Project.Download.{
  FileChunk, max_chunks, max_zip_bytes, ChunkReader, check_chunk, is_last, download_loop, not_empty,
  download,
}
use phcremote_control.Project.Download.Checks.{
  Expects, Passes, check_passes, last_of, ending_index, check_sound,
}

-- The bytes of the chunks, joined.
abbrev pub joined : List FileChunk → List ℕ
joined [] = []
joined (c ∷ cs) = c.bin ++ joined cs

-- The chunks carry the numbers from `i` on up to the last before `total`, and none is empty.
abbrev pub InOrder : ℕ → ℕ → List FileChunk → Type 0
InOrder i total [] = i ≡ total
InOrder i total (c ∷ cs) =
    (c.cur ≡ pos i) × (c.total ≡ pos total) × (c.bin ≢ []) × InOrder (suc i) total cs

answer-cases :
    (a : FileChunk ⊎ ReadError) → ((c : FileChunk) × (a ≡ inl c)) ⊎ ((e : ReadError) × (a ≡ inr e))
answer-cases (inl c) = inl (c, refl)
answer-cases (inr e) = inr (e, refl)

module _ {W : Type 0} (read : ChunkReader W) where
  -- Reading from index `i` on gives these chunks.
  pub data Serves : ℕ → W → List FileChunk → W → Type 0 where
    ends : {i : ℕ} {w : W} → Serves i w [] w
    reads :
        {i : ℕ} {w w' w'' : W} {c : FileChunk} {cs : List FileChunk}
        → read i w ≡ (inl c, w')
        → Serves (suc i) w' cs w''
        → Serves i w (c ∷ cs) w''

InOrder-le : (i total : ℕ) (cs : List FileChunk) → InOrder i total cs → i ≤ total
InOrder-le i total [] o = omega arith
InOrder-le i total (c ∷ cs) o = let below = InOrder-le (suc i) total cs o.3 in omega (arith, below)

module _ {W : Type 0} (read : ChunkReader W) where
  -- After the last chunk nothing is read.
  closing_chunks :
      (i total : ℕ) (v w' : W) (cs : List FileChunk)
      → InOrder i total cs
      → Serves read i v cs w'
      → total ≤ i
      → (joined cs ≡ []) × (v ≡ w')
  closing_chunks i total v _ [] o ends p = (refl, refl)
  closing_chunks i total v w' (c ∷ cs) o s p =
      let below = InOrder-le (suc i) total cs o.3 in absurd (omega (arith, below))

  -- What a loop that ends well has read.
  pub record Fetched (i : ℕ) (expected : Option ℤ) (buf : List ℕ) (w : W) (bytes : List ℕ) (w' : W)
      : Type 0 where
    pub total : ℕ
    pub chunks : List FileChunk
    pub served : Serves read i w chunks w'
    pub ordered : InOrder i total chunks
    pub plausible : total ≤ max_chunks
    pub begun : i < total
    pub same : Expects total expected
    pub content : bytes ≡ buf ++ joined chunks
    pub fits : length bytes ≤ max_zip_bytes

  -- A round of a loop that ends well.
  abbrev Round : ℕ → ℕ → Option ℤ → List ℕ → W → List ℕ → W → FileChunk → Type 0
  Round left i expected buf w bytes w' c =
      (read i w ≡ (inl c, (read i w).1))
      × (check_chunk i expected buf c ≡ none)
      × (((is_last c ≡ true) × (bytes ≡ buf ++ c.bin) × (w' ≡ (read i w).1))
          ⊎ ((is_last c ≡ false)
              × (download_loop read left (suc i) (some c.total) (buf ++ c.bin) (read i w).1
                  ≡ (ok bytes, w'))))

  loop-Round :
      (left i : ℕ) (expected : Option ℤ) (buf : List ℕ) (w w' : W) (bytes : List ℕ)
      → download_loop read (suc left) i expected buf w ≡ (ok bytes, w')
      → (c : FileChunk) × Round left i expected buf w bytes w' c
  unfolding download_loop
  loop-Round left i expected buf w w' bytes e = elim (answer-cases (read i w).0) [
    | inr (x, failed) ↦ absurd (ground (arith, failed))
    | inl (c, got) ↦ elim (Option-cases (check_chunk i expected buf c)) [
      | inr (x, refused) ↦ absurd (ground (arith, got, refused))
      | inl passed ↦ elim (Bool-cases (is_last c)) [
        | inl last ↦ (
          c,
          (
            ground (arith, got),
            passed,
            inl (last, ground (arith, got, passed, last), ground (arith, got, passed, last)),
          ),
        )
        | inr more ↦
            (c, (ground (arith, got), passed, inr (more, ground (arith, got, passed, more))))
      ]
    ]
  ]

  Fetched-last :
      (i : ℕ) (expected : Option ℤ) (buf : List ℕ) (w w' : W) (c : FileChunk)
      → read i w ≡ (inl c, w')
      → Passes i expected buf c
      → is_last c ≡ true
      → Fetched i expected buf w (buf ++ c.bin) w'
  Fetched-last i expected buf w w' c got k last = record {
    total = pos_part c.total;
    chunks = c ∷ [];
    served = reads got ends;
    ordered = (
      k.cur,
      k.total,
      k.nonempty,
      ending_index i (pos_part c.total) c k.plausible.0 k.cur k.total k.inside last,
    );
    plausible = k.plausible.1;
    begun = k.inside;
    same = k.same;
    content = ap (◌++◌ buf) (sym (append-nil c.bin));
    fits = omega (arith, k.fits, length-append buf c.bin);
  }

  Fetched-more :
      (i : ℕ) (expected : Option ℤ) (buf : List ℕ) (w v w' : W) (c : FileChunk) (bytes : List ℕ)
      → read i w ≡ (inl c, v)
      → Passes i expected buf c
      → Fetched (suc i) (some c.total) (buf ++ c.bin) v bytes w'
      → Fetched i expected buf w bytes w'
  Fetched-more i expected buf w v w' c bytes got k f = record {
    total = pos_part c.total;
    chunks = c ∷ f.chunks;
    served = reads got f.served;
    ordered = (
      k.cur,
      k.total,
      k.nonempty,
      subst (λ n. InOrder (suc i) n f.chunks) (ground arith) f.ordered,
    );
    plausible = k.plausible.1;
    begun = k.inside;
    same = k.same;
    content = f.content ∙ append_assoc buf c.bin (joined f.chunks);
    fits = f.fits;
  }

  loop_sound :
      (left i : ℕ) (expected : Option ℤ) (buf : List ℕ) (w w' : W) (bytes : List ℕ)
      → download_loop read left i expected buf w ≡ (ok bytes, w')
      → Fetched i expected buf w bytes w'
  unfolding download_loop
  loop_sound zero i expected buf w w' bytes e = absurd (cc)
  loop_sound (suc left) i expected buf w w' bytes e =
      let (c, round) = loop-Round left i expected buf w w' bytes e in
      let (got, passed, rest) = round in
      let k = check_sound i expected buf c passed in
      elim rest [
        | inl (last, same, here) ↦
            rw (same, here) (Fetched-last i expected buf w (read i w).1 c got k last)
        | inr (more, later) ↦
            Fetched-more i expected buf w (read i w).1 w' c bytes got k
              (loop_sound left (suc i) (some c.total) (buf ++ c.bin) (read i w).1 w' bytes later)
      ]

  pub loop_complete :
      (left i total : ℕ) (expected : Option ℤ) (buf : List ℕ) (w w' : W) (cs : List FileChunk)
      → Serves read i w cs w'
      → InOrder i total cs
      → i < total
      → total ≤ max_chunks
      → total ≤ i + left
      → Expects total expected
      → length buf + length (joined cs) ≤ max_zip_bytes
      → download_loop read left i expected buf w ≡ (ok (buf ++ joined cs), w')
  unfolding download_loop
  loop_complete left i total expected buf w w' [] s o h p l x f = absurd (omega arith)
  loop_complete zero i total expected buf w w' (c ∷ cs) s o h p l x f = absurd (omega arith)
  loop_complete (suc left) i total expected buf w w' (c ∷ cs) (reads {w' = v} e s) o h p l x f =
      let passed =
        check_passes i total expected buf c (omega arith) p h x o.0 o.1 o.2
          (omega (arith, length-append c.bin (joined cs))) in
      let later : (suc i < total)
          → download_loop read left (suc i) (some c.total) (buf ++ c.bin) v
            ≡ (ok (buf ++ (c.bin ++ joined cs)), w') =
        λ room.
          loop_complete left (suc i) total (some c.total) (buf ++ c.bin) v w' cs s o.3 room p
            (omega arith) o.1
            (omega (arith, length-append c.bin (joined cs), length-append buf c.bin))
          ∙ ap (λ bs. (ok bs, w')) (append_assoc buf c.bin (joined cs)) in
      elim (Bool-cases (leb total (suc i))) [
        | inl whole ↦
            let closed = closing_chunks (suc i) total v w' cs o.3 s (ground arith) in
            let last = last_of i total c (omega arith) o.0 o.1 h ∙ whole in
            let here : download_loop read (suc left) i expected buf w ≡ (ok (buf ++ c.bin), v) =
              ground (arith, e, passed, last) in
            let same : c.bin ++ joined cs ≡ c.bin = rw closed.0 (append-nil c.bin) in here ∙ cc
        | inr more ↦
            let rest = later (ground arith) in
            let last = last_of i total c (omega arith) o.0 o.1 h ∙ more in
            ground (arith, e, passed, last, rest)
      ]

  not_empty-ok :
      {w : W} {bytes : List ℕ} (r : Result (List ℕ) × W)
      → not_empty r ≡ (ok bytes, w)
      → r ≡ (ok bytes, w)
  unfolding not_empty
  not_empty-ok (ok [], v) e = cc
  not_empty-ok (ok (b ∷ bs), v) e = e
  not_empty-ok (err x, v) e = e

  not_empty-joined :
      {w : W} (total : ℕ) (cs : List FileChunk)
      → InOrder 0 total cs
      → 0 < total
      → not_empty (ok (joined cs), w) ≡ (ok (joined cs), w)
  unfolding not_empty
  not_empty-joined total [] o p = absurd (omega arith)
  not_empty-joined total (c ∷ cs) o p = ground (arith, o.2)

  -- A download that succeeds returns the payloads of the chunks the STM served from index 0 on,
  -- joined: they are numbered in order, agree on one total of at most `max_chunks`, none of them is
  -- empty, all `total` of them were read, and the archive has at most `max_zip_bytes`.
  pub download_sound :
      (w w' : W) (bytes : List ℕ) → download read w ≡ (ok bytes, w') → Fetched 0 none [] w bytes w'
  unfolding download not_empty
  download_sound w w' bytes e =
      loop_sound max_chunks 0 none [] w w' bytes
        (not_empty-ok (download_loop read max_chunks 0 none [] w) e)

  -- If the STM serves a whole archive of at most `max_chunks` chunks and `max_zip_bytes` bytes, in
  -- order, the download returns it.
  pub download_complete :
      (total : ℕ) (w w' : W) (cs : List FileChunk)
      → Serves read 0 w cs w'
      → InOrder 0 total cs
      → 0 < total
      → total ≤ max_chunks
      → length (joined cs) ≤ max_zip_bytes
      → download read w ≡ (ok (joined cs), w')
  unfolding download not_empty
  download_complete total w w' cs s o p l f =
      ap not_empty (loop_complete max_chunks 0 total none [] w w' cs s o p l l _ (omega (arith, f)))
      ∙ not_empty-joined total cs o p
