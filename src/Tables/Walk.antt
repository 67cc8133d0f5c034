-- ===== src/Tables/Walk.antt =====
-- Walking and indexing the collections of Tables.
use rust_rocks.Common.{
  ℕ, zero, suc, ◌+◌, ◌≤◌, ◌<◌, ◌≡◌, refl, true, false, none, some, List, [], ◌∷◌, ◌==◌, length,
  get_elem?, ltb, arith, inl, inr, Option-cases, drop, drop-all, drop-get_elem?,
}
use rust_rocks.Ffi.{done, panic}
use rust_rocks.Tables.{
  TablePropertiesCollectionIter, iter, next, size_hint, versions, next_version, index, loop, nth,
}

within :
    {A : Type 0} (xs : List A) (i : ℕ) (x : A) → get_elem? xs i ≡ some x → ltb i (length xs) ≡ true
within [] i x h = absurd cc
within (y ∷ xs) zero x h = ground arith
within (y ∷ xs) (suc i) x h = ground (arith, within xs i x h)

beyond : {A : Type 0} (xs : List A) (i : ℕ) → get_elem? xs i ≡ none → ltb i (length xs) ≡ false
beyond [] i h = ground arith
beyond (y ∷ xs) zero h = absurd cc
beyond (y ∷ xs) (suc i) h = ground (arith, beyond xs i h)

module _ {A : Type 0} where
  -- The iterator at the entries `xs` of a map with `n` entries.
  abbrev pub inside : ℕ → List A → TablePropertiesCollectionIter A
  inside n xs = record { raw = some xs; size = n; at_end = length xs == 0 }

  inside_lem :
      (n k : ℕ) (xs : List A)
      → length xs < k
      → loop next k (inside n xs) ≡ done (some xs) (inside n [])
  unfolding next
  inside_lem n zero xs h = absurd (omega arith)
  inside_lem n (suc k) [] h = refl
  inside_lem n (suc k) (x ∷ []) h = ground (arith, inside_lem n k [] (omega arith))
  inside_lem n (suc k) (x ∷ y ∷ xs) h = ground (arith, inside_lem n k (y ∷ xs) (omega arith))

  -- The loop over a collection takes every entry once, in the order of the map, and stops; it reads
  -- no entry past the end, also where the map is empty. Fuel of one more than the number of entries
  -- is enough.
  pub loop-iter :
      (m : List A) (k : ℕ)
      → length m < k
      → ((it : TablePropertiesCollectionIter A) × (loop next k (iter m) ≡ done (some m) it)
          × (next it ≡ done none it))
  unfolding iter next
  loop-iter [] zero h = absurd (omega arith)
  loop-iter [] (suc k) h = (record { raw = none; size = 0; at_end = true }, refl, refl)
  loop-iter (x ∷ xs) k h =
      (inside (length (x ∷ xs)) [], inside_lem (length (x ∷ xs)) k (x ∷ xs) h, refl)

  -- The size hint does not shrink: after the first of its entries was taken, the iterator still
  -- announces all of them, one more than the loop will take.
  pub size_hint-next :
      (x : A) (xs : List A) (k : ℕ)
      → length xs < k
      → ((it : TablePropertiesCollectionIter A) × (it' : TablePropertiesCollectionIter A) × (next
              (iter (x ∷ xs))
            ≡ done (some x) it)
          × (loop next k it ≡ done (some xs) it')
          × (size_hint it ≡ length xs + 1))
  unfolding iter next size_hint
  size_hint-next x xs k h = (
    inside (length xs + 1) xs,
    inside (length xs + 1) [],
    ground arith,
    inside_lem (length xs + 1) k xs h,
    refl,
  )

  versions_lem :
      (v : List A) (i k : ℕ)
      → i ≤ length v
      → length v < i + k
      → loop next_version k (record { vec = v; idx = i })
        ≡ done (some (drop i v)) (record { vec = v; idx = length v })
  unfolding next_version nth
  versions_lem v i zero le h = absurd (omega arith)
  versions_lem v i (suc k) le h = elim (Option-cases (get_elem? v i)) [
    | inl missing ↦
        ground
          (arith, missing, beyond v i missing, drop-all v i (ground (arith, beyond v i missing)))
    | inr (x, here) ↦
        ground (arith, here, within v i x here, drop-get_elem? v i x here, versions_lem v (suc i) k)
  ]

  -- The loop over the key versions takes all of them in order, within bounds, with fuel of one more
  -- than their number.
  pub loop-versions :
      (v : List A) (k : ℕ)
      → length v < k
      → loop next_version k (versions v) ≡ done (some v) (record { vec = v; idx = length v })
  unfolding versions
  loop-versions v k h = versions_lem v 0 k (omega arith) (omega arith)

  -- Indexing the key versions gives the version at the index, and panics exactly if the index is
  -- not below the length; it never reads out of bounds.
  pub index-get_elem? :
      {W : Type 0} (v : List A) (i : ℕ) (w : W)
      → index v i w ≡ elim (get_elem? v i) [ none ↦ panic w | some x ↦ done x w ]
  unfolding index nth
  index-get_elem? v i w = elim (Option-cases (get_elem? v i)) [
    | inl missing ↦ ground (arith, missing, beyond v i missing)
    | inr (x, here) ↦ ground (arith, here, within v i x here)
  ]

  -- The loop over a collection takes every entry once, in the order of the map, and stops; it reads
  -- no entry past the end, also where the map is empty. The loop over key versions takes all of
  -- them in order, within bounds. Fuel of one more than the number of entries is enough.
  pub both_loop-entries :
      (m : List A) (k : ℕ)
      → length m < k
      → ((it : TablePropertiesCollectionIter A) × (loop next k (iter m) ≡ done (some m) it)
          × (next it ≡ done none it))
        × (loop next_version k (versions m) ≡ done (some m) (record { vec = m; idx = length m }))
  both_loop-entries m k h = (loop-iter m k h, loop-versions m k h)
