-- ===== src/Heal/Scans.antt =====
-- src/heal/scanner.rs with src/heal/mrf.rs: which objects a scan looks at, and where a degraded one is afterwards.
use abixio.Base.{
  ℕ, ◌+◌, ◌-◌, ◌≤◌, ◌↔◌, ◌≡◌, ◌⊎◌, refl, ap, ◌∙◌, arith, Bool, true, false, not, ◌&&◌, some, [],
  ◌∷◌, Bytes, ◌==◌, if◌then◌else◌, leb, leb→le, length, str_eq, str_eq_iff, str_eq_refl, str_has_eq,
  Bool-cases, inl, inr, all,
}
use mathlib.Core.List.{head-eq_of_cons-eq, tail-eq_of_cons-eq}
use abixio.Base.Keyed.{get, insert, get-insert}
use abixio.Heal.Mrf.{MrfEntry, MrfQueue, enqueue, contains_entry, entry_eq_iff}
use abixio.Heal.Scanner.{ScanState, obj_key, should_scan, mark_checked, scan_object}

-- No `/` in the name of a bucket.
abbrev pub IsPlain : Bytes → Type 0
IsPlain bucket = all (λ b. not (b == 47)) bucket ≡ true

obj_key-injective :
    (b c k l : Bytes) → IsPlain b → IsPlain c → obj_key b k ≡ obj_key c l → (b ≡ c) × (k ≡ l)
obj_key-injective [] [] k l pb pc h = (refl, tail-eq_of_cons-eq h)
obj_key-injective [] (c ∷ cs) k l pb pc h =
    let same : 47 ≡ c = head-eq_of_cons-eq h in absurd (ground arith)
obj_key-injective (b ∷ bs) [] k l pb pc h =
    let same : b ≡ 47 = head-eq_of_cons-eq h in absurd (ground arith)
obj_key-injective (b ∷ bs) (c ∷ cs) k l pb pc h =
    let same : b ≡ c = head-eq_of_cons-eq h in
    let (p, q) = obj_key-injective bs cs k l (ground arith) (ground arith) (tail-eq_of_cons-eq h) in
    (ap (λ t. b ∷ t) p ∙ ap (λ x. x ∷ cs) same, q)

no_pair :
    (b c k l : Bytes)
    → str_eq (obj_key b k) (obj_key c l) ≡ false
    → (str_eq b c && str_eq k l) ≡ false
no_pair b c k l other = elim (Bool-cases (str_eq b c && str_eq k l)) [
  | inl both ↦
      let p : b ≡ c = ground (arith, str_eq_iff b c) in
      let q : k ≡ l = ground (arith, str_eq_iff k l) in
      let same : obj_key b k ≡ obj_key c l = ap (λ t. obj_key t k) p ∙ ap (obj_key c) q in
      let eq : str_eq (obj_key b k) (obj_key c l) ≡ true =
        (str_eq_iff (obj_key b k) (obj_key c l)).1 same in
      cc
  | inr no_match ↦ no_match
]

-- An object that was marked as checked is due again once the interval has passed; the mark changes nothing
-- for any other object, for buckets without a `/` in their names.
pub should_scan-mark_checked :
    (at now : ℕ) (b c k l : Bytes) (s : ScanState)
    → IsPlain b
    → IsPlain c
    → should_scan now c l (mark_checked at b k s)
      ≡ (if str_eq b c && str_eq k l then leb s.heal_interval (now - at) else should_scan now c l s)
unfolding should_scan mark_checked
should_scan-mark_checked at now b c k l s pb pc =
    let found : get (obj_key c l) (insert (obj_key b k) at s.last_checked) ≡ (
        if str_eq (obj_key b k) (obj_key c l) then some at else get (obj_key c l) s.last_checked) =
      get-insert (obj_key b k) (obj_key c l) at s.last_checked in
    elim (Bool-cases (str_eq (obj_key b k) (obj_key c l))) [
      | inl same ↦
          let (p, q) =
            obj_key-injective b c k l pb pc ((str_eq_iff (obj_key b k) (obj_key c l)).0 same) in
          let both : (str_eq b c && str_eq k l) ≡ true =
            ground (arith, str_eq_iff b c, str_eq_iff k l) in
          rw (both, found, same) refl
      | inr other ↦
          let not_both : (str_eq b c && str_eq k l) ≡ false = no_pair b c k l other in
          rw (not_both, found, other) refl
    ]

enqueue-tried :
    (e : MrfEntry) (q : MrfQueue)
    → (contains_entry e (enqueue e q).1.seen ≡ true)
      ⊎ ((q.closed ≡ true) ⊎ (q.capacity ≤ length q.queued))
unfolding enqueue
enqueue-tried e q = elim (Bool-cases (contains_entry e q.seen)) [
  | inl pending ↦ inl (rw pending pending)
  | inr fresh ↦ elim (Bool-cases q.closed) [
    | inl shut ↦ inr (inl shut)
    | inr open_ ↦ elim (Bool-cases (leb q.capacity (length q.queued))) [
      | inl full ↦ inr (inr (leb→le q.capacity (length q.queued) full))
      | inr room ↦ inl (rw (fresh, open_, room) (ground (arith, entry_eq_iff e e)))
    ]
  ]
]

-- After a scan of a degraded object that was due, in a bucket without a `/` in its name: the object is
-- pending, or the queue refused it because it is closed or full. In either case it is due at a later time
-- exactly when the interval has passed since the scan, and whether any other object in such a bucket is due
-- has not changed.
pub scan_object_lem :
    (now later : ℕ) (needs : Bytes → Bytes → Bool) (bucket key : Bytes) (s : ScanState)
    (q : MrfQueue)
    → IsPlain bucket
    → should_scan now bucket key s ≡ true
    → needs bucket key ≡ true
    → now ≤ later
    → ((contains_entry
            (record { bucket = bucket; key = key })
            (scan_object now needs bucket key (s, q)).1.seen
          ≡ true)
        ⊎ ((q.closed ≡ true) ⊎ (q.capacity ≤ length q.queued)))
      × ((should_scan later bucket key (scan_object now needs bucket key (s, q)).0 ≡ true)
          ↔ (now + s.heal_interval ≤ later))
      × ((c l : Bytes)
          → IsPlain c
          → (str_eq bucket c && str_eq key l) ≡ false
          → should_scan later c l (scan_object now needs bucket key (s, q)).0
            ≡ should_scan later c l s)
unfolding scan_object
scan_object_lem now later needs bucket key s q plain due degraded after =
    let e : MrfEntry = record { bucket = bucket; key = key } in
    let again : should_scan later bucket key (mark_checked now bucket key s)
        ≡ leb s.heal_interval (later - now) =
      should_scan-mark_checked now later bucket bucket key key s plain plain
      ∙ rw (str_eq_refl bucket, str_eq_refl key) refl in
    rw (due, degraded)
      (
        enqueue-tried e q,
        rw again ((λ h. ground arith), (λ h. ground arith)),
        λ c l other differs.
            should_scan-mark_checked now later bucket c key l s plain other ∙ rw differs refl,
      )
