-- ===== src/Cluster/Topology/Distinct.antt =====
-- Names that differ from one another, as the sets of `validate` in src/cluster/topology.rs check it.
use abixio.Base.{
  ◌≡◌, ◌≢◌, ◌↔◌, refl, sym, ap, ◌∙◌, Bool, false, ◌||◌, List, [], ◌∷◌, ◌++◌, Bytes, All, str_eq,
  str_eq_iff, Bool-cases, inl, inr,
}
use abixio.Cluster.Manager.Names.{contains_str}

module _ {A : Type 0} (name_of : A → Bytes) where
  -- No two items have one name.
  abbrev pub AreDistinct : List A → Type 0
  AreDistinct [] = Unit
  AreDistinct (x ∷ xs) = All (λ y. name_of x ≢ name_of y) xs × AreDistinct xs

  -- What the loops ask for: each name is missing from those before it.
  abbrev pub Fresh : List Bytes → List A → Type 0
  Fresh seen [] = Unit
  Fresh seen (x ∷ xs) = (contains_str (name_of x) seen ≡ false) × Fresh (name_of x ∷ seen) xs

  abbrev pub add_all : List Bytes → List A → List Bytes
  add_all seen [] = seen
  add_all seen (x ∷ xs) = add_all (name_of x ∷ seen) xs

  pub Fresh-append :
      (seen : List Bytes) (xs ys : List A)
      → Fresh seen (xs ++ ys) ↔ (Fresh seen xs × Fresh (add_all seen xs) ys)
  Fresh-append seen [] ys = ((λ h. (tt, h)), (λ h. h.1))
  Fresh-append seen (x ∷ xs) ys =
      let later = Fresh-append (name_of x ∷ seen) xs ys in
      ((λ h. let (l, r) = later.0 h.1 in ((h.0, l), r)), (λ h. (h.0.0, later.1 (h.0.1, h.1))))

  abbrev AreNew : List Bytes → List A → Type 0
  AreNew seen xs = All (λ x. contains_str (name_of x) seen ≡ false) xs

  AreNew-cons :
      (a : Bytes) (seen : List Bytes) (xs : List A)
      → AreNew (a ∷ seen) xs ↔ (AreNew seen xs × All (λ y. a ≢ name_of y) xs)
  AreNew-cons a seen [] = ((λ h. (tt, tt)), (λ h. tt))
  AreNew-cons a seen (x ∷ xs) =
      let later = AreNew-cons a seen xs in
      (
        (λ h.
            let (new, apart) = later.0 h.1 in
            let (other, missing) =
              or_false (str_eq (name_of x) a) (contains_str (name_of x) seen) h.0 in
            ((missing, new), (differs other, apart))),
        (λ h. (
          or_both (str_eq (name_of x) a) (contains_str (name_of x) seen) (same h.1.0) h.0.0,
          later.1 (h.0.1, h.1.1),
        )),
      )
    where
      or_false : (p q : Bool) → (p || q) ≡ false → (p ≡ false) × (q ≡ false)
      or_false p q h = elim (Bool-cases p) [
        | inl t ↦ cc
        | inr f ↦ (f, sym (ap (λ r. r || q) f) ∙ h)
      ]

      or_both : (p q : Bool) → p ≡ false → q ≡ false → (p || q) ≡ false
      or_both p q hp hq = rw hp hq

      differs : str_eq (name_of x) a ≡ false → a ≢ name_of x
      differs h e = cc (h, (str_eq_iff (name_of x) a).1 (sym e))

      same : a ≢ name_of x → str_eq (name_of x) a ≡ false
      same h = elim (Bool-cases (str_eq (name_of x) a)) [
        | inl t ↦ absurd (h (sym ((str_eq_iff (name_of x) a).0 t)))
        | inr f ↦ f
      ]

  Fresh_lem : (seen : List Bytes) (xs : List A) → Fresh seen xs ↔ (AreNew seen xs × AreDistinct xs)
  Fresh_lem seen [] = ((λ h. (tt, tt)), (λ h. tt))
  Fresh_lem seen (x ∷ xs) =
      let later = Fresh_lem (name_of x ∷ seen) xs in
      let front = AreNew-cons (name_of x) seen xs in
      (
        (λ h.
            let (new, distinct) = later.0 h.1 in
            let (old, apart) = front.0 new in ((h.0, old), (apart, distinct))),
        (λ h. (h.0.0, later.1 (front.1 (h.0.1, h.1.0), h.1.1))),
      )

  AreNew-nil : (xs : List A) → AreNew [] xs
  AreNew-nil [] = tt
  AreNew-nil (x ∷ xs) = (refl, AreNew-nil xs)

  pub Fresh-iff : (xs : List A) → Fresh [] xs ↔ AreDistinct xs
  Fresh-iff xs = ((λ h. ((Fresh_lem [] xs).0 h).1), (λ h. (Fresh_lem [] xs).1 (AreNew-nil xs, h)))
