-- ===== src/Storage/Erasure/Agree.antt =====
-- src/storage/erasure_decode.rs: what slots that agree with the written shards give, piece by piece.
use abixio.Base.{
  ℕ, zero, suc, ◌+◌, ◌-◌, ◌≤◌, ◌<◌, ◌≡◌, refl, sym, ap, ◌∙◌, min, arith, true, Option, none, some,
  List, [], ◌∷◌, ◌++◌, map, Bytes, ◌==◌, length, take, all, All, length-append, take-append,
  drop-append, Bool-cases, inl, inr, leb,
}
use mathlib.Core.List.{append-nil}
use abixio.Storage.Erasure.{Agrees, good_count, map_some, write_all}
use abixio.Storage.Erasure.Split.{concat, take_within, take_past, take_at}
use abixio.Storage.Erasure.Decode.{flatten, has_more, next_piece, advance, send_slices}

pub length-Agrees :
    (slots : List (Option Bytes)) (full : List Bytes)
    → Agrees slots full
    → length slots ≡ length full
length-Agrees [] [] h = refl
length-Agrees [] (f ∷ full) h = absurd h
length-Agrees (s ∷ slots) [] h = absurd h
length-Agrees (none ∷ slots) (f ∷ full) h = ap suc (length-Agrees slots full h)
length-Agrees (some s ∷ slots) (f ∷ full) h = ap suc (length-Agrees slots full h.1)

pub good_count_le : (slots : List (Option Bytes)) → good_count slots ≤ length slots
good_count_le [] = omega arith
good_count_le (none ∷ slots) = omega (arith, good_count_le slots)
good_count_le (some s ∷ slots) = omega (arith, good_count_le slots)

-- When no slot is empty, the slots are the shards.
pub all_good :
    (slots : List (Option Bytes)) (full : List Bytes)
    → Agrees slots full
    → length full ≤ good_count slots
    → slots ≡ map_some full
all_good [] [] h k = refl
all_good [] (f ∷ full) h k = absurd h
all_good (s ∷ slots) [] h k = absurd h
all_good (none ∷ slots) (f ∷ full) h k =
    absurd (omega (arith, good_count_le slots, length-Agrees slots full h))
all_good (some s ∷ slots) (f ∷ full) h k = rw (h.0, all_good slots full h.1 (omega arith)) refl

pub Agrees-take :
    (n : ℕ) (slots : List (Option Bytes)) (full : List Bytes)
    → Agrees slots full
    → Agrees (take n slots) (take n full)
Agrees-take zero slots full h = tt
Agrees-take (suc n) [] [] h = tt
Agrees-take (suc n) [] (f ∷ full) h = absurd h
Agrees-take (suc n) (s ∷ slots) [] h = absurd h
Agrees-take (suc n) (none ∷ slots) (f ∷ full) h = Agrees-take n slots full h
Agrees-take (suc n) (some s ∷ slots) (f ∷ full) h = (h.0, Agrees-take n slots full h.1)

pub take-write_all :
    (n : ℕ) (w s : List Bytes)
    → length w ≡ length s
    → take n (write_all w s) ≡ write_all (take n w) (take n s)
take-write_all zero w s h = refl
take-write_all (suc n) [] s h = refl
take-write_all (suc n) (w ∷ ws) [] h = absurd (omega arith)
take-write_all (suc n) (w ∷ ws) (s ∷ ss) h =
    ap (λ t. (w ++ s) ∷ t) (take-write_all n ws ss (omega arith))

pub All-take : (P : Bytes → Type 0) (n : ℕ) (xs : List Bytes) → All P xs → All P (take n xs)
All-take P zero xs h = tt
All-take P (suc n) [] h = tt
All-take P (suc n) (x ∷ xs) h = (h.0, All-take P n xs h.1)

pub flatten-take-map_some :
    (n : ℕ) (full : List Bytes) → flatten (take n (map_some full)) ≡ take n full
flatten-take-map_some zero full = refl
flatten-take-map_some (suc n) [] = refl
flatten-take-map_some (suc n) (f ∷ full) = ap (λ t. f ∷ t) (flatten-take-map_some n full)

piece_of_some :
    (chunk : ℕ) (s r : Bytes)
    → 0 < chunk
    → length s ≡ chunk
    → next_piece chunk (some (s ++ r)) ≡ some s
piece_of_some chunk [] r h k = absurd (omega arith)
piece_of_some chunk (b ∷ s) r h k = ap some (take-append chunk (b ∷ s) r k)

-- The pieces that are read next are those of the block, and what is left agrees with what is left.
pub next_piece-Agrees :
    (chunk : ℕ) (slots : List (Option Bytes)) (bs later : List Bytes)
    → 0 < chunk
    → All (λ b. length b ≡ chunk) bs
    → length later ≡ length bs
    → Agrees slots (write_all bs later)
    → Agrees (map (next_piece chunk) slots) bs
      × Agrees (map (advance chunk) slots) later
      × (good_count (map (next_piece chunk) slots) ≡ good_count slots)
      × (good_count (map (advance chunk) slots) ≡ good_count slots)
next_piece-Agrees chunk [] [] [] p sizes l h = (tt, tt, refl, refl)
next_piece-Agrees chunk [] [] (x ∷ later) p sizes l h = absurd (omega arith)
next_piece-Agrees chunk [] (b ∷ bs) [] p sizes l h = absurd h
next_piece-Agrees chunk [] (b ∷ bs) (x ∷ later) p sizes l h = absurd h
next_piece-Agrees chunk (s ∷ slots) [] later p sizes l h = absurd h
next_piece-Agrees chunk (s ∷ slots) (b ∷ bs) [] p sizes l h = absurd (omega arith)
next_piece-Agrees chunk (none ∷ slots) (b ∷ bs) (x ∷ later) p sizes l h =
    next_piece-Agrees chunk slots bs later p sizes.1 (omega arith) h
next_piece-Agrees chunk (some s ∷ slots) (b ∷ bs) (x ∷ later) p sizes l h =
    let (pieces, rests, n, m) =
      next_piece-Agrees chunk slots bs later p sizes.1 (omega arith) h.1 in
    rw (h.0, piece_of_some chunk b x p sizes.0, drop-append chunk b x sizes.0)
      ((refl, pieces), (refl, rests), ap suc n, ap suc m)

take_split :
    (chunk needed : ℕ) (s r more : Bytes)
    → length s ≡ chunk
    → take (min chunk needed) (s ++ r) ++ take (needed - min chunk needed) more
      ≡ take needed (s ++ more)
take_split chunk needed s r more h = elim (Bool-cases (leb needed chunk)) [
  | inl fits ↦
      let small : needed ≤ length s = ground arith in
      let cut : min chunk needed ≡ needed = ground arith in
      let done : needed - min chunk needed ≡ 0 = ground arith in
      rw (done, cut, take_within needed s r small, take_within needed s more small)
        (append-nil (take needed s))
  | inr over ↦
      let cut : min chunk needed ≡ chunk = ground arith in
      let left : needed ≡ length s + (needed - min chunk needed) = ground arith in
      ap (λ k. take k (s ++ r) ++ take (needed - min chunk needed) more) cut
      ∙ ap (λ t. t ++ take (needed - min chunk needed) more) (take-append chunk s r h)
      ∙ sym (take_past (needed - min chunk needed) s more)
      ∙ sym (take_at needed (length s + (needed - min chunk needed)) (s ++ more) left)
]

take_nil : (n : ℕ) → [] ≡ take {A = ℕ} n []
take_nil zero = refl
take_nil (suc n) = refl

-- The slices that the fast path sends are the first `needed` bytes of the block's data shards.
pub concat-send_slices :
    (chunk needed : ℕ) (slots : List (Option Bytes)) (bs later : List Bytes)
    → 0 < chunk
    → All (λ b. length b ≡ chunk) bs
    → length later ≡ length bs
    → Agrees slots (write_all bs later)
    → all has_more slots ≡ true
    → concat (send_slices chunk needed slots) ≡ take needed (concat bs)
unfolding send_slices
concat-send_slices chunk needed [] [] later p sizes l h good = take_nil needed
concat-send_slices chunk needed [] (b ∷ bs) [] p sizes l h good = absurd h
concat-send_slices chunk needed [] (b ∷ bs) (x ∷ later) p sizes l h good = absurd h
concat-send_slices chunk needed (s ∷ slots) [] later p sizes l h good = absurd h
concat-send_slices chunk needed (s ∷ slots) (b ∷ bs) [] p sizes l h good = absurd (omega arith)
concat-send_slices chunk needed (none ∷ slots) (b ∷ bs) (x ∷ later) p sizes l h good = cc
concat-send_slices chunk needed (some s ∷ slots) (b ∷ bs) (x ∷ later) p sizes l h good =
    let whole : min chunk (length (b ++ x)) ≡ chunk = omega (arith, sizes.0, length-append b x) in
    let rest : all has_more slots ≡ true = ground arith in
    rw (h.0, whole)
      (elim (Bool-cases (min chunk needed == 0)) [
        | inl none_left ↦
            let zero_left : needed ≡ 0 = ground arith in rw (none_left, zero_left) refl
        | inr go ↦
            rw
              (
                go,
                concat-send_slices chunk (needed - min chunk needed) slots bs later p sizes.1
                    (omega arith) h.1 rest,
              )
              (take_split chunk needed b x (concat bs) sizes.0)
      ])
