-- ===== src/Storage/Needle/Layout.antt =====
-- The bytes that `serialize_into` leaves in its buffer.
use abixio.Base.{
  ℕ, ◌+◌, ◌-◌, ◌≤◌, ◌≡◌, refl, ap, sym, ◌∙◌, arith, some, List, [], ◌∷◌, ◌++◌, Bytes, length, take,
  drop, replicate, length-append, length-drop, length-take, length-replicate, take-append-drop,
  drop-drop, drop-append, drop_all,
}
use mathlib.Core.List.{append_assoc, append-nil}
use abixio.Base.Slices.{slice_of, write_at-append, slice_of-append}
use abixio.Storage.Needle.{
  Needle, fields, put_fields, RawHeader, header_bytes, header_size, header_of, serialized_size,
  serialize_into, serialize,
}

-- The fields one after the other.
abbrev pub joined : List Bytes → Bytes
joined [] = []
joined (f ∷ fs) = f ++ joined fs

pub joined-append : (fs gs : List Bytes) → joined (fs ++ gs) ≡ joined fs ++ joined gs
joined-append [] gs = refl
joined-append (f ∷ fs) gs = simp (joined-append fs gs, append_assoc)

pub put_fields-append :
    (fs : List Bytes) (pre rest : Bytes) (off : ℕ)
    → length pre ≡ off
    → length (joined fs) ≤ length rest
    → put_fields off fs (pre ++ rest) ≡ some ((pre ++ joined fs) ++ drop (length (joined fs)) rest)
unfolding put_fields
put_fields-append [] pre rest off p q = rw append-nil refl
put_fields-append (f ∷ fs) pre rest off p q =
    let fits : length f ≤ length rest = omega (arith, length-append f (joined fs)) in
    rw (write_at-append pre rest f off p fits, put_fields)
      (put_fields-append fs (pre ++ f) (drop (length f) rest) (off + length f)
          (omega (arith, length-append pre f))
          (omega (arith, length-append f (joined fs), length-drop (length f) rest))
        ∙ ap some (simp (append_assoc, drop-drop, length-append)))

abbrev pub payload_of : Needle → Bytes
payload_of n = joined (fields n)

pub length-payload_of : (n : Needle) → serialized_size n ≡ header_size + length (payload_of n)
unfolding serialized_size
length-payload_of n = simp (length-append, append-nil) (omega arith)

pub length-header_bytes : (h : RawHeader) → length (header_bytes h) ≡ header_size
unfolding header_bytes
length-header_bytes h = refl

module _ (xxh64 : Bytes → ℕ) where
  -- The record of a needle: its header, then its fields.
  abbrev pub image : Needle → Bytes
  image n = header_bytes (header_of n (xxh64 (payload_of n))) ++ payload_of n

  pub length-image : (n : Needle) → length (image n) ≡ serialized_size n
  length-image n = omega (
    arith,
    length-append (header_bytes (header_of n (xxh64 (payload_of n)))) (payload_of n),
    length-header_bytes (header_of n (xxh64 (payload_of n))),
    length-payload_of n,
  )

  -- The same with the buffer cut where the payload begins.
  serialize_into_cut :
      (n : Needle) (front rest : Bytes)
      → length front ≡ header_size
      → length (payload_of n) ≤ length rest
      → serialize_into xxh64 n (front ++ rest)
        ≡ some (serialized_size n, image n ++ drop (length (payload_of n)) rest)
  unfolding serialize_into
  serialize_into_cut n front rest p q =
      let tail = drop (length (payload_of n)) rest in
      let body : Bytes = (front ++ payload_of n) ++ tail in
      let hdr = header_bytes (header_of n (xxh64 (payload_of n))) in
      let hashed : slice_of body header_size (serialized_size n - header_size) ≡ payload_of n =
        rw append_assoc (
          slice_of-append front (payload_of n) tail header_size (serialized_size n - header_size) p
            (omega (arith, length-payload_of n))) in
      let past : drop (length hdr) body ≡ payload_of n ++ tail =
        rw (length-header_bytes, append_assoc)
          (drop-append header_size front (payload_of n ++ tail) p) in
      let fits : length hdr ≤ length body = omega (
        arith,
        length-header_bytes (header_of n (xxh64 (payload_of n))),
        length-append (front ++ payload_of n) tail,
        length-append front (payload_of n),
      ) in
      rw (put_fields-append (fields n) front rest header_size p q, serialize_into)
        (rw hashed (
          rw (write_at-append [] body hdr 0 refl fits, serialize_into)
            (rw past (
              ap (λ (b : Bytes). some (serialized_size n, b))
                (sym (append_assoc hdr (payload_of n) tail))))))

  -- A buffer of at least `serialized_size` bytes gets the record in front and keeps the bytes
  -- behind it; nothing panics, and the count returned is the size announced.
  pub serialize_into-image :
      (n : Needle) (dest : Bytes)
      → serialized_size n ≤ length dest
      → serialize_into xxh64 n dest
        ≡ some (serialized_size n, image n ++ drop (serialized_size n) dest)
  serialize_into-image n dest h =
      let cut =
        serialize_into_cut n (take header_size dest) (drop header_size dest)
          (omega (arith, length-take header_size dest, length-payload_of n))
          (omega (arith, length-drop header_size dest, length-payload_of n)) in
      ap (serialize_into xxh64 n) (sym (take-append-drop header_size dest))
      ∙ cut
      ∙ ap (λ (t : Bytes). some (serialized_size n, image n ++ t))
          (drop-drop (length (payload_of n)) header_size dest
            ∙ ap (λ (k : ℕ). drop k dest) (sym (length-payload_of n)))

  pub serialize-image : (n : Needle) → serialize xxh64 n ≡ some (image n)
  unfolding serialize
  serialize-image n =
      let size = serialized_size n in
      let zeros : Bytes = replicate size 0 in
      rw (serialize_into-image n zeros (omega (arith, length-replicate {A = ℕ} size 0)), serialize)
        (ap (λ (t : Bytes). some (image n ++ t))
            (drop_all size zeros (length-replicate {A = ℕ} size 0))
          ∙ ap some (append-nil (image n)))
