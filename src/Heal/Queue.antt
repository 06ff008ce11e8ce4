-- ===== src/Heal/Queue.antt =====
-- src/heal/mrf.rs: the queue keeps each pending object once.
use abixio.Base.{
  ℕ, ◌≡◌, refl, arith, Bool, true, false, not, ◌&&◌, ◌||◌, Option, none, some, List, [], ◌∷◌, ◌++◌,
  leb, length, length-append, Bool-cases, inl, inr, ok,
}
use abixio.Heal.Mrf.{
  MrfEntry, MrfQueue, entry_eq, entry_eq_iff, contains_entry, remove_entry, new, enqueue, mark_done,
  receive, finish, AreDistinct, IsValid,
}

pub entry_eq_refl : (e : MrfEntry) → entry_eq e e ≡ true
entry_eq_refl e = (entry_eq_iff e e).1 refl

contains_entry-append :
    (e x : MrfEntry) (xs : List MrfEntry)
    → contains_entry e (xs ++ (x ∷ [])) ≡ (contains_entry e xs || entry_eq x e)
contains_entry-append e x [] = ground arith
contains_entry-append e x (y ∷ xs) = ground (arith, contains_entry-append e x xs)

contains_entry-remove_entry :
    (e x : MrfEntry) (xs : List MrfEntry)
    → contains_entry e (remove_entry x xs) ≡ (not (entry_eq x e) && contains_entry e xs)
contains_entry-remove_entry e x [] = ground arith
contains_entry-remove_entry e x (y ∷ xs) = ground (
  arith,
  contains_entry-remove_entry e x xs,
  entry_eq_iff x e,
  entry_eq_iff y x,
  entry_eq_iff y e,
  entry_eq_iff x y,
)

AreDistinct-append :
    (x : MrfEntry) (xs : List MrfEntry)
    → AreDistinct xs
    → contains_entry x xs ≡ false
    → AreDistinct (xs ++ (x ∷ []))
AreDistinct-append x [] d h = (refl, tt)
AreDistinct-append x (y ∷ xs) d h = (
  ground (arith, contains_entry-append y x xs, entry_eq_iff x y, entry_eq_iff y x, d.0),
  AreDistinct-append x xs d.1 (ground arith),
)

pub new-IsValid : (capacity : ℕ) → IsValid (new capacity)
unfolding new
new-IsValid capacity = (tt, (λ e h. refl), (λ e. refl), omega arith)

enqueue-IsValid : (e : MrfEntry) (q : MrfQueue) → IsValid q → IsValid (enqueue e q).1
unfolding enqueue
enqueue-IsValid e q (distinct, apart, tracked, bound) =
    elim (Bool-cases (contains_entry e q.seen)) [
      | inl pending ↦ rw pending (distinct, apart, tracked, bound)
      | inr fresh ↦ elim (Bool-cases q.closed) [
        | inl shut ↦ rw (fresh, shut) (distinct, apart, tracked, bound)
        | inr open_ ↦ elim (Bool-cases (leb q.capacity (length q.queued))) [
          | inl full ↦ rw (fresh, open_, full) (distinct, apart, tracked, bound)
          | inr room ↦
              rw (fresh, open_, room)
                (
                  AreDistinct-append e q.queued distinct (ground (arith, tracked e)),
                  (λ x h. ground (
                    arith,
                    contains_entry-append x e q.queued,
                    apart x h,
                    tracked e,
                    entry_eq_iff e x,
                  )),
                  (λ x. ground (arith, contains_entry-append x e q.queued, tracked x)),
                  ground (arith, length-append q.queued (e ∷ [])),
                )
        ]
      ]
    ]

-- A queue from its fields.
abbrev pub queue_of : ℕ → Bool → List MrfEntry → List MrfEntry → Option MrfEntry → MrfQueue
queue_of capacity closed queued seen in_flight = record {
  capacity = capacity;
  closed = closed;
  queued = queued;
  seen = seen;
  in_flight = in_flight;
}

pub receive-IsValid :
    (capacity : ℕ) (closed : Bool) (queued seen : List MrfEntry) (in_flight : Option MrfEntry)
    → IsValid (queue_of capacity closed queued seen in_flight)
    → IsValid (receive (queue_of capacity closed queued seen in_flight))
unfolding receive
receive-IsValid capacity closed queued seen (some x) h = h
receive-IsValid capacity closed [] seen none h = h
receive-IsValid capacity closed (e ∷ queued) seen none ((fresh, distinct), apart, tracked, bound) =
    (
      distinct,
      (λ x h. ground (arith, entry_eq_iff e x)),
      (λ x. ground (arith, tracked x)),
      omega arith,
    )

pub finish-IsValid :
    (capacity : ℕ) (closed : Bool) (queued seen : List MrfEntry) (in_flight : Option MrfEntry)
    → IsValid (queue_of capacity closed queued seen in_flight)
    → IsValid (finish (queue_of capacity closed queued seen in_flight))
unfolding finish mark_done
finish-IsValid capacity closed queued seen none h = h
finish-IsValid capacity closed queued seen (some e) (distinct, apart, tracked, bound) = (
  distinct,
  (λ x h. cc),
  (λ x. ground (
    arith,
    contains_entry-remove_entry x e seen,
    tracked x,
    apart e (entry_eq_refl e),
    apart x,
    entry_eq_iff e x,
  )),
  bound,
)

-- An entry of the queue is put in, received by the worker, or done.
pub data Step : MrfQueue → MrfQueue → Type 0 where
  enqueued : (e : MrfEntry) (q : MrfQueue) → Step q (enqueue e q).1
  received : (q : MrfQueue) → Step q (receive q)
  finished : (q : MrfQueue) → Step q (finish q)

pub data QueueRun (capacity : ℕ) : MrfQueue → Type 0 where
  started : QueueRun capacity (new capacity)
  stepped : {q r : MrfQueue} → QueueRun capacity q → Step q r → QueueRun capacity r

Step-IsValid : {q r : MrfQueue} → Step q r → IsValid q → IsValid r
Step-IsValid (enqueued e q) h = enqueue-IsValid e q h
Step-IsValid (received q) h = receive-IsValid q.capacity q.closed q.queued q.seen q.in_flight h
Step-IsValid (finished q) h = finish-IsValid q.capacity q.closed q.queued q.seen q.in_flight h

-- In every state of the queue, after any interleaving of calls of `enqueue` with the turns of the worker, no
-- object is queued twice or while it is being healed, the pending objects are those that are queued or in
-- the worker's hands, and the channel holds at most its capacity.
pub QueueRun-IsValid : (capacity : ℕ) (q : MrfQueue) → QueueRun capacity q → IsValid q
QueueRun-IsValid capacity _ started = new-IsValid capacity
QueueRun-IsValid capacity _ (stepped {q} r step) = Step-IsValid step (QueueRun-IsValid capacity q r)

-- An object that loses a shard while the worker heals it is not queued again: `enqueue` reports success and
-- changes nothing.
pub enqueue_in_flight :
    (capacity : ℕ) (q : MrfQueue) (e : MrfEntry)
    → QueueRun capacity q
    → q.in_flight ≡ some e
    → enqueue e q ≡ (ok tt, q)
unfolding enqueue
enqueue_in_flight capacity q e r busy =
    let (_, _, tracked, _) = QueueRun-IsValid capacity q r in
    let pending : contains_entry e q.seen ≡ true = ground (arith, tracked e, entry_eq_refl e) in
    rw pending refl
