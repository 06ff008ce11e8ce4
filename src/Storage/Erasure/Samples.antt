-- ===== src/Storage/Erasure/Samples.antt =====
-- Two coders for tests: a mirror, for one data and one parity shard, and no coder at all.
use abixio.Base.{
  ℕ, ◌≤◌, ◌<◌, ◌≡◌, refl, ap, arith, Option, none, some, List, [], ◌∷◌, ◌++◌, Bytes, length, All,
}
use mathlib.Core.List.{append-nil}
use abixio.Storage.Erasure.{ReedSolomon, Agrees, good_count, map_some}
use abixio.Storage.Erasure.Agree.{all_good}

abbrev pub mirror_encode : List Bytes → List Bytes
mirror_encode [] = [] ∷ []
mirror_encode (d ∷ ds) = d ∷ []

abbrev pub mirror_reconstruct : List (Option Bytes) → Option (List (Option Bytes))
mirror_reconstruct (some s ∷ slots) = some (some s ∷ some s ∷ [])
mirror_reconstruct (none ∷ some s ∷ slots) = some (some s ∷ some s ∷ [])
mirror_reconstruct (none ∷ none ∷ slots) = none
mirror_reconstruct (none ∷ []) = none
mirror_reconstruct [] = none

pub length-mirror_encode : (ds : List Bytes) → length (mirror_encode ds) ≡ 1
length-mirror_encode [] = refl
length-mirror_encode (d ∷ ds) = refl

pub sizes-mirror_encode :
    (size : ℕ) (ds : List Bytes)
    → All (λ d. length d ≡ size) ds
    → length ds ≡ 1
    → All (λ d. length d ≡ size) (mirror_encode ds)
sizes-mirror_encode size [] h k = absurd (omega arith)
sizes-mirror_encode size (d ∷ ds) h k = (h.0, tt)

pub mirror_back :
    (size : ℕ) (ds : List Bytes) (slots : List (Option Bytes))
    → 0 < size
    → All (λ d. length d ≡ size) ds
    → length ds ≡ 1
    → Agrees slots (ds ++ mirror_encode ds)
    → 1 ≤ good_count slots
    → mirror_reconstruct slots ≡ some (map_some (ds ++ mirror_encode ds))
mirror_back size [] slots p h k agree good = absurd (omega arith)
mirror_back size (d ∷ e ∷ ds) slots p h k agree good = absurd (omega arith)
mirror_back size (d ∷ []) [] p h k agree good = absurd agree
mirror_back size (d ∷ []) (none ∷ []) p h k agree good = absurd agree
mirror_back size (d ∷ []) (none ∷ none ∷ slots) p h k agree good =
    absurd (none_left slots agree good)
  where
    none_left : (slots : List (Option Bytes)) → Agrees slots [] → 1 ≤ good_count slots → ⊥
    none_left [] agree good = omega arith
    none_left (s ∷ slots) agree good = agree
mirror_back size (d ∷ []) (none ∷ some s ∷ slots) p h k agree good =
    ap (λ t. some (some t ∷ some t ∷ [])) agree.0
mirror_back size (d ∷ []) (some s ∷ slots) p h k agree good =
    ap (λ t. some (some t ∷ some t ∷ [])) agree.0

-- One data shard and its copy.
abbrev pub mirror : ReedSolomon 1 1
mirror = record {
  encode = mirror_encode;
  reconstruct = mirror_reconstruct;
  length-encode = length-mirror_encode;
  sizes-encode = sizes-mirror_encode;
  reconstruct-encode = mirror_back;
}

pub plain_back :
    (n size : ℕ) (ds : List Bytes) (slots : List (Option Bytes))
    → 0 < size
    → All (λ d. length d ≡ size) ds
    → length ds ≡ n
    → Agrees slots (ds ++ [])
    → n ≤ good_count slots
    → some slots ≡ some (map_some (ds ++ []))
plain_back n size ds slots p h k agree good =
    ap some (all_good slots (ds ++ []) agree (omega (arith, ap length (append-nil ds))))

-- Data shards without parity.
abbrev pub plain : (n : ℕ) → ReedSolomon n 0
plain n = record {
  encode = λ ds. [];
  reconstruct = some;
  length-encode = λ ds. refl;
  sizes-encode = λ size ds h k. tt;
  reconstruct-encode = plain_back n;
}
