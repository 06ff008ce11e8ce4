-- ===== src/Heal/Mrf.antt =====
-- src/heal/mrf.rs and the worker of src/heal/worker.rs that drains it: a bounded channel of the objects that
-- wait for healing, with the set of those that are pending.
use abixio.Base.{
  ℕ, ◌≤◌, ◌≡◌, ◌↔◌, arith, Bool, true, false, ◌&&◌, ◌||◌, Option, none, some, List, [], ◌∷◌, ◌++◌,
  Bytes, if◌then◌else◌, leb, length, str_eq, str_eq_iff, Result, ok, err,
}

pub record MrfEntry : Type 0 where
  pub bucket : Bytes
  pub key : Bytes

pub data MrfError : Type 0 where
  queue_full queue_closed : MrfError

abbrev pub entry_eq : MrfEntry → MrfEntry → Bool
entry_eq a b = str_eq a.bucket b.bucket && str_eq a.key b.key

abbrev pub contains_entry : MrfEntry → List MrfEntry → Bool
contains_entry e [] = false
contains_entry e (x ∷ xs) = entry_eq x e || contains_entry e xs

abbrev pub remove_entry : MrfEntry → List MrfEntry → List MrfEntry
remove_entry e [] = []
remove_entry e (x ∷ xs) = let rest = remove_entry e xs in if entry_eq x e then rest else x ∷ rest

-- The channel is its messages; `in_flight` is the entry that the worker has received and not yet marked done.
pub record MrfQueue : Type 0 where
  pub capacity : ℕ
  pub closed : Bool
  pub queued : List MrfEntry
  pub seen : List MrfEntry
  pub in_flight : Option MrfEntry

unfoldable pub new : ℕ → MrfQueue
new capacity = record {
  capacity = capacity;
  closed = false;
  queued = [];
  seen = [];
  in_flight = none;
}

unfoldable pub enqueue : MrfEntry → MrfQueue → Result MrfError Unit × MrfQueue
enqueue e q =
    if contains_entry e q.seen
    then (ok tt, q)
    else if q.closed
    then (err queue_closed, q)
    else if leb q.capacity (length q.queued)
    then (err queue_full, q)
    else (ok tt, record q { queued = q.queued ++ (e ∷ []); seen = e ∷ q.seen })

unfoldable pub mark_done : MrfEntry → MrfQueue → MrfQueue
mark_done e q = record q { seen = remove_entry e q.seen }

abbrev pub pending_count : MrfQueue → ℕ
pending_count q = length q.seen

-- `rx.recv()`, when the worker waits and there is a message.
unfoldable pub receive : MrfQueue → MrfQueue
receive q = take_head q.in_flight q.queued
  where
    take_head : Option MrfEntry → List MrfEntry → MrfQueue
    take_head (some busy) queued = q
    take_head none [] = q
    take_head none (e ∷ queued) = record q { queued = queued; in_flight = some e }

-- The end of a turn of `mrf_drain_worker`, whatever the healing gave: `mrf.mark_done(&entry)`.
unfoldable pub finish : MrfQueue → MrfQueue
unfolding mark_done
finish q = done q.in_flight
  where
    done : Option MrfEntry → MrfQueue
    done none = q
    done (some e) = mark_done e (record q { in_flight = none })

abbrev pub is_in_flight : MrfEntry → Option MrfEntry → Bool
is_in_flight e none = false
is_in_flight e (some x) = entry_eq x e

abbrev pub AreDistinct : List MrfEntry → Type 0
AreDistinct [] = Unit
AreDistinct (e ∷ es) = (contains_entry e es ≡ false) × AreDistinct es

-- No entry is queued twice, or while it is healed; the pending entries are those that are queued or in
-- flight; and the channel is not longer than its capacity.
abbrev pub IsValid : MrfQueue → Type 0
IsValid q =
    AreDistinct q.queued
    × ((e : MrfEntry) → is_in_flight e q.in_flight ≡ true → contains_entry e q.queued ≡ false)
    × ((e : MrfEntry)
        → contains_entry e q.seen ≡ (contains_entry e q.queued || is_in_flight e q.in_flight))
    × (length q.queued ≤ q.capacity)

pub entry_eq_iff : (a b : MrfEntry) → (entry_eq a b ≡ true) ↔ (a ≡ b)
entry_eq_iff a b = ground (arith, str_eq_iff a.bucket b.bucket, str_eq_iff a.key b.key)
