-- ===== src/Storage/Erasure/Chunks.antt =====
-- src/storage/erasure_encode.rs: the shards of a body do not depend on how the body was cut into chunks.
use abixio.Base.{
  ℕ, zero, suc, ◌+◌, ◌≤◌, ◌<◌, ◌≡◌, refl, sym, ap, ◌∙◌, arith, List, [], ◌∷◌, ◌++◌, Bytes, length,
  take, drop, replicate, is_empty, length-append, length-drop, if◌then◌else◌, inl, inr, leb, leb→le,
  Bool-cases, length-replicate,
}
use mathlib.Core.List.{append_assoc, append-nil}
use abixio.Storage.Erasure.{
  ReedSolomon, block_shards, write_all, write_block, write_full_blocks, encode_chunks, encode_body,
}
use abixio.Storage.Erasure.Split.{
  concat, length-block_shards, drop_over, take_all, take_within, drop_within,
}

pub write_all-write_all :
    (w s t : List Bytes)
    → length t ≤ length s
    → write_all (write_all w s) t ≡ write_all w (write_all s t)
write_all-write_all [] s t h = refl
write_all-write_all (w ∷ ws) [] [] h = refl
write_all-write_all (w ∷ ws) [] (t ∷ ts) h = absurd (omega arith)
write_all-write_all (w ∷ ws) (s ∷ ss) [] h = refl
write_all-write_all (w ∷ ws) (s ∷ ss) (t ∷ ts) h =
    rw (append_assoc w s t, write_all-write_all ws ss ts (omega arith)) refl

pub length-write_all : (w s : List Bytes) → length (write_all w s) ≡ length w
length-write_all [] s = refl
length-write_all (w ∷ ws) [] = refl
length-write_all (w ∷ ws) (s ∷ ss) = ap suc (length-write_all ws ss)

write_all-empty : (n : ℕ) (s : List Bytes) → length s ≡ n → write_all (replicate n []) s ≡ s
write_all-empty zero [] h = refl
write_all-empty zero (s ∷ ss) h = absurd (omega arith)
write_all-empty (suc n) [] h = absurd (omega arith)
write_all-empty (suc n) (s ∷ ss) h = ap (λ t. s ∷ t) (write_all-empty n ss (omega arith))

pub write_all-blank : (n : ℕ) (w : List Bytes) → write_all w (replicate n []) ≡ w
write_all-blank zero [] = refl
write_all-blank zero (w ∷ ws) = refl
write_all-blank (suc n) [] = refl
write_all-blank (suc n) (w ∷ ws) = rw (append-nil w, write_all-blank n ws) refl

module _ {data_n parity_n : ℕ} (rs : ReedSolomon data_n parity_n) (block_size : ℕ) where
  -- The shards of a body, by blocks from its start, for at most `n` blocks.
  unfoldable pub shards_within : ℕ → Bytes → List Bytes
  shards_within zero body = replicate (data_n + parity_n) []
  shards_within (suc n) body =
      let later = shards_within n (drop block_size body) in
      if is_empty body
      then replicate (data_n + parity_n) []
      else write_all (block_shards rs (take block_size body)) later

  -- The shards of a body: each shard has its piece of the first block, then its piece of the next one.
  unfoldable pub shards_of : Bytes → List Bytes
  unfolding shards_within
  shards_of body = shards_within (length body) body

  length-shards_within : (n : ℕ) (body : Bytes) → length (shards_within n body) ≡ data_n + parity_n
  unfolding shards_within
  length-shards_within zero body = length-replicate (data_n + parity_n) []
  length-shards_within (suc n) [] = length-replicate (data_n + parity_n) []
  length-shards_within (suc n) (b ∷ body) =
      length-write_all (block_shards rs (take block_size (b ∷ body))) _
      ∙ length-block_shards rs (take block_size (b ∷ body))

  pub length-shards_of : (body : Bytes) → length (shards_of body) ≡ data_n + parity_n
  unfolding shards_of
  length-shards_of body = length-shards_within (length body) body

  pub shards_of_nil : shards_of [] ≡ replicate (data_n + parity_n) []
  unfolding shards_of shards_within
  shards_of_nil = refl

  module _ (positive : 0 < block_size) where
    shards_within_enough :
        (m n : ℕ) (body : Bytes)
        → length body ≤ m
        → length body ≤ n
        → shards_within m body ≡ shards_within n body
    unfolding shards_within
    shards_within_enough zero zero body hm hn = refl
    shards_within_enough zero (suc n) [] hm hn = refl
    shards_within_enough zero (suc n) (b ∷ body) hm hn = absurd (omega arith)
    shards_within_enough (suc m) zero [] hm hn = refl
    shards_within_enough (suc m) zero (b ∷ body) hm hn = absurd (omega arith)
    shards_within_enough (suc m) (suc n) [] hm hn = refl
    shards_within_enough (suc m) (suc n) (b ∷ body) hm hn =
        let rest : Bytes = drop block_size (b ∷ body) in
        ap (write_all (block_shards rs (take block_size (b ∷ body)))) (
          shards_within_enough m n rest (omega (arith, length-drop block_size (b ∷ body)))
            (omega (arith, length-drop block_size (b ∷ body))))

    pub shards_of_step :
        (body : Bytes)
        → 0 < length body
        → shards_of body
          ≡ write_all (block_shards rs (take block_size body)) (shards_of (drop block_size body))
    unfolding shards_of shards_within
    shards_of_step [] h = absurd (omega arith)
    shards_of_step (b ∷ body) h = ap (write_all (block_shards rs (take block_size (b ∷ body)))) (
        shards_within_enough (length body) (length (drop block_size (b ∷ body)))
          (drop block_size (b ∷ body)) (omega (arith, length-drop block_size (b ∷ body)))
          (omega arith))

    -- What one block adds, in front of the shards of what follows.
    write_block-ahead :
        (buf tail : Bytes) (writers : List Bytes)
        → block_size ≤ length buf
        → write_all writers (shards_of (buf ++ tail))
          ≡ write_all
              (write_block rs (take block_size buf) writers)
              (shards_of (drop block_size buf ++ tail))
    unfolding write_block
    write_block-ahead buf tail writers h =
        ap (write_all writers)
          (shards_of_step (buf ++ tail) (omega (arith, length-append buf tail)))
        ∙ rw (take_within block_size buf tail h, drop_within block_size buf tail h)
            (sym (
              write_all-write_all writers (block_shards rs (take block_size buf))
                (shards_of (drop block_size buf ++ tail))
                (omega (
                  arith,
                  length-block_shards rs (take block_size buf),
                  length-shards_of (drop block_size buf ++ tail),
                ))))

    write_full_blocks-ahead :
        (n : ℕ) (buf tail : Bytes) (writers : List Bytes)
        → write_all writers (shards_of (buf ++ tail))
          ≡ write_all
              (write_full_blocks rs block_size n buf writers).1
              (shards_of ((write_full_blocks rs block_size n buf writers).0 ++ tail))
    unfolding write_full_blocks
    write_full_blocks-ahead zero buf tail writers = refl
    write_full_blocks-ahead (suc n) buf tail writers =
        elim (Bool-cases (leb block_size (length buf))) [
          | inl full ↦ rw full (
              write_block-ahead buf tail writers (leb→le block_size (length buf) full)
              ∙ write_full_blocks-ahead n (drop block_size buf) tail
                  (write_block rs (take block_size buf) writers))
          | inr part ↦ rw part refl
        ]

    write_full_blocks-short :
        (n : ℕ) (buf : Bytes) (writers : List Bytes)
        → length buf ≤ n
        → length (write_full_blocks rs block_size n buf writers).0 < block_size
    unfolding write_full_blocks
    write_full_blocks-short zero buf writers h = omega arith
    write_full_blocks-short (suc n) buf writers h =
        elim (Bool-cases (leb block_size (length buf))) [
          | inl full ↦ rw full (
              write_full_blocks-short n (drop block_size buf)
                (write_block rs (take block_size buf) writers)
                (ground (arith, length-drop block_size buf)))
          | inr part ↦ rw part (ground arith)
        ]

    encode_chunks-ahead :
        (chunks : List Bytes) (buf : Bytes) (writers : List Bytes)
        → write_all writers (shards_of (buf ++ concat chunks))
          ≡ write_all
              (encode_chunks rs block_size chunks buf writers).1
              (shards_of (encode_chunks rs block_size chunks buf writers).0)
    unfolding encode_chunks
    encode_chunks-ahead [] buf writers = ap (λ t. write_all writers (shards_of t)) (append-nil buf)
    encode_chunks-ahead (chunk ∷ chunks) buf writers =
        let n : ℕ = length (buf ++ chunk) in
        ap (λ t. write_all writers (shards_of t)) (sym (append_assoc buf chunk (concat chunks)))
        ∙ write_full_blocks-ahead n (buf ++ chunk) (concat chunks) writers
        ∙ encode_chunks-ahead chunks (write_full_blocks rs block_size n (buf ++ chunk) writers).0
            (write_full_blocks rs block_size n (buf ++ chunk) writers).1

    encode_chunks-short :
        (chunks : List Bytes) (buf : Bytes) (writers : List Bytes)
        → length buf < block_size
        → length (encode_chunks rs block_size chunks buf writers).0 < block_size
    unfolding encode_chunks
    encode_chunks-short [] buf writers h = h
    encode_chunks-short (chunk ∷ chunks) buf writers h =
        let n : ℕ = length (buf ++ chunk) in
        encode_chunks-short chunks (write_full_blocks rs block_size n (buf ++ chunk) writers).0
          (write_full_blocks rs block_size n (buf ++ chunk) writers).1
          (write_full_blocks-short n (buf ++ chunk) writers (omega arith))

    last_block :
        (buf : Bytes) (writers : List Bytes)
        → length buf < block_size
        → write_all writers (shards_of buf)
          ≡ (if is_empty buf then writers else write_block rs buf writers)
    unfolding shards_of shards_within write_block
    last_block [] writers h = write_all-blank (data_n + parity_n) writers
    last_block (b ∷ buf) writers h =
        let whole : take block_size (b ∷ buf) ≡ b ∷ buf =
          take_all block_size (b ∷ buf) (omega arith) in
        let over : drop block_size (b ∷ buf) ≡ [] = drop_over block_size (b ∷ buf) (omega arith) in
        ap (write_all writers) (shards_of_step (b ∷ buf) (omega arith))
        ∙ rw (whole, over)
            (ap (write_all writers)
              (write_all-blank (data_n + parity_n) (block_shards rs (b ∷ buf))))

    -- The shards that a body is written to are those of the joined chunks, block by block: neither the
    -- number of chunks nor where they are cut has a part in it, for any block size above 0.
    pub encode_body-shards_of :
        (chunks : List Bytes) → encode_body rs block_size chunks ≡ shards_of (concat chunks)
    unfolding encode_body
    encode_body-shards_of chunks =
        let blank : List Bytes = replicate (data_n + parity_n) [] in
        sym (
          last_block (encode_chunks rs block_size chunks [] blank).0
            (encode_chunks rs block_size chunks [] blank).1
            (encode_chunks-short chunks [] blank positive))
        ∙ sym (encode_chunks-ahead chunks [] blank)
        ∙ write_all-empty (data_n + parity_n) (shards_of (concat chunks))
            (length-shards_of (concat chunks))
