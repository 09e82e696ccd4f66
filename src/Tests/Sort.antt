-- ===== src/Tests/Sort.antt =====
-- An insertion sort of candidates, which does what `sort.Slice` documents.
use mathlib.Core.List.{Memᴰ}
use serverless_flux.Base.{
  ℕ, ◌≡◌, subst, inl, inr, false, List, [], ◌∷◌, Bool, Bool-cases, mem-cons_cases, All,
  if◌then◌else◌,
}
use serverless_flux.Scaler.Catalog.{Candidate}
use serverless_flux.Scaler.Catalog.TightestFit.{IsOrder, SortLaws}

module _ (less : Candidate ℕ → Candidate ℕ → Bool) where
  insert : Candidate ℕ → List (Candidate ℕ) → List (Candidate ℕ)
  insert c [] = c ∷ []
  insert c (d ∷ ds) = let rest = insert c ds in if less d c then d ∷ rest else c ∷ d ∷ ds

  unfoldable pub sort : List (Candidate ℕ) → List (Candidate ℕ)
  unfolding insert
  sort [] = []
  sort (c ∷ cs) = insert c (sort cs)

  insert-mem : (c x : Candidate ℕ) (l : List (Candidate ℕ)) → Memᴰ x (c ∷ l) → Memᴰ x (insert c l)
  unfolding insert
  insert-mem c x [] m = m
  insert-mem c x (d ∷ l) m = elim (Bool-cases (less d c)) [
    | inr e ↦ rw e m
    | inl e ↦ rw e (elim (mem-cons_cases m) [
      | inl p ↦ Memᴰ.tail (insert-mem c x l (Memᴰ.head p))
      | inr n ↦ elim (mem-cons_cases n) [
        | inl q ↦ Memᴰ.head q
        | inr n' ↦ Memᴰ.tail (insert-mem c x l (Memᴰ.tail n'))
      ]
    ])
  ]

  mem-insert : (c x : Candidate ℕ) (l : List (Candidate ℕ)) → Memᴰ x (insert c l) → Memᴰ x (c ∷ l)
  unfolding insert
  mem-insert c x [] m = m
  mem-insert c x (d ∷ l) m = elim (Bool-cases (less d c)) [
    | inr e ↦ rw e at m
    | inl e ↦ elim (mem-cons_cases (rw e at m)) [
      | inl p ↦ Memᴰ.tail (Memᴰ.head p)
      | inr n ↦ elim (mem-cons_cases (mem-insert c x l n)) [
        | inl q ↦ Memᴰ.head q
        | inr n' ↦ Memᴰ.tail (Memᴰ.tail n')
      ]
    ]
  ]

  sort-mem : (l : List (Candidate ℕ)) (x : Candidate ℕ) → Memᴰ x l → Memᴰ x (sort l)
  unfolding sort
  sort-mem [] x m = m
  sort-mem (c ∷ l) x m =
      insert-mem c x (sort l)
        (elim (mem-cons_cases m) [ inl p ↦ Memᴰ.head p | inr n ↦ Memᴰ.tail (sort-mem l x n) ])

  mem-sort : (l : List (Candidate ℕ)) (x : Candidate ℕ) → Memᴰ x (sort l) → Memᴰ x l
  unfolding sort
  mem-sort [] x m = m
  mem-sort (c ∷ l) x m = elim (mem-cons_cases (mem-insert c x (sort l) m)) [
    | inl p ↦ Memᴰ.head p
    | inr n ↦ Memᴰ.tail (mem-sort l x n)
  ]

  -- No entry is less than `c`.
  abbrev NotBelow : Candidate ℕ → List (Candidate ℕ) → Type 0
  NotBelow c = All (λ x. less x c ≡ false)

  abbrev IsOrdered : List (Candidate ℕ) → Type 0
  IsOrdered [] = Unit
  IsOrdered (c ∷ cs) = NotBelow c cs × IsOrdered cs

  module _ (P : Candidate ℕ → Type 0) (O : IsOrder P less) where
    All-insert : (c : Candidate ℕ) (l : List (Candidate ℕ)) → P c → All P l → All P (insert c l)
    unfolding insert
    All-insert c [] p h = (p, tt)
    All-insert c (d ∷ l) p (q, h) = elim (Bool-cases (less d c)) [
      | inl e ↦ rw e (q, All-insert c l p h)
      | inr e ↦ rw e (p, (q, h))
    ]

    All-sort : (l : List (Candidate ℕ)) → All P l → All P (sort l)
    unfolding sort
    All-sort [] h = tt
    All-sort (c ∷ l) (p, h) = All-insert c (sort l) p (All-sort l h)

    NotBelow-trans :
        (c d : Candidate ℕ) (l : List (Candidate ℕ))
        → P c
        → P d
        → All P l
        → less d c ≡ false
        → NotBelow d l
        → NotBelow c l
    NotBelow-trans c d [] p q h e n = tt
    NotBelow-trans c d (x ∷ l) p q (y, h) e (k, n) =
        (O.not_trans x d c y q p k e, NotBelow-trans c d l p q h e n)

    NotBelow-insert :
        (c d : Candidate ℕ) (l : List (Candidate ℕ))
        → less c d ≡ false
        → NotBelow d l
        → NotBelow d (insert c l)
    unfolding insert
    NotBelow-insert c d [] h n = (h, tt)
    NotBelow-insert c d (x ∷ l) h (p, n) = elim (Bool-cases (less x c)) [
      | inl e ↦ rw e (p, NotBelow-insert c d l h n)
      | inr e ↦ rw e (h, (p, n))
    ]

    insert-IsOrdered :
        (c : Candidate ℕ) (l : List (Candidate ℕ))
        → P c
        → All P l
        → IsOrdered l
        → IsOrdered (insert c l)
    unfolding insert
    insert-IsOrdered c [] p k h = (tt, tt)
    insert-IsOrdered c (d ∷ l) p (q, k) (n, h) = elim (Bool-cases (less d c)) [
      | inl e ↦ rw e (NotBelow-insert c d l (O.asymm d c q p e) n, insert-IsOrdered c l p k h)
      | inr e ↦ rw e ((e, NotBelow-trans c d l p q k e n), (n, h))
    ]

    sort-IsOrdered : (l : List (Candidate ℕ)) → All P l → IsOrdered (sort l)
    unfolding sort
    sort-IsOrdered [] h = tt
    sort-IsOrdered (c ∷ l) (p, h) =
        insert-IsOrdered c (sort l) p (All-sort l h) (sort-IsOrdered l h)

pub sort_laws : SortLaws sort
sort_laws = record {
  mem_sort = mem-sort;
  sort_mem = sort-mem;
  ordered = λ P less l c cs o n e. (subst (IsOrdered less) e (sort-IsOrdered less P o l n)).0;
}
