-- ===== src/Db/MultiGet/Slots.antt =====
-- The objects that `multi_get` makes lie one after another from the first fresh address on.
use rust_rocks.Common.{
  ℕ, ◌+◌, ◌≤◌, ◌<◌, ◌≡◌, refl, Option, none, some, List, [], ◌∷◌, Bytes, if◌then◌else◌, length,
  take-length, arith, Bool-cases, Option-cases, inl, inr,
}
use rust_rocks.Ffi.{Ptr, null, done, M, pure, ◌>>=◌, ◌>>◌, update}
use rust_rocks.Ffi.Object.{Object, buffer, status}
use rust_rocks.Engine.{Engine}
use rust_rocks.Error.{Native, Result, Code, save_error, from_ll, load_status, drop_status}
use rust_rocks.Error.Codes.{status_code, code_of_int}
use rust_rocks.Db.Requests.{Cells}
use rust_rocks.Db.Read.Lookup.{Answer, found, failed}
use rust_rocks.Db.MultiGet.{CVec, Slot, fill, results, deref, drop_vec, copy_string}

module _ (E : Engine) where
  abbrev pub Reply : Type 0
  Reply = E.Rep × Bytes

  -- The object that is made for an answer, and the slot that names it.
  abbrev pub object : Reply → Object E.Rep E.Cf E.Snap E.Batch
  object (s, bs) = if E.is_ok s then buffer (length bs) bs else status s

  abbrev pub slot : Ptr → Reply → Slot
  slot p (s, bs) = if E.is_ok s then (p, length bs, null) else (null, 0, p)

  abbrev pub slots : Ptr → List Reply → List Slot
  slots p [] = []
  slots p (x ∷ xs) = slot p x ∷ slots (p + 1) xs

  abbrev pub result : Ptr → Reply → Result CVec
  result p (s, bs) =
      if E.is_ok s
      then Result.ok (record { data_ptr = p; size = length bs })
      else Result.err (record { raw = p })

  abbrev pub all_results : Ptr → List Reply → List (Result CVec)
  all_results p [] = []
  all_results p (x ∷ xs) = result p x ∷ all_results (p + 1) xs

  -- The cells after the objects of the answers were put from `p` on, and after they were released.
  abbrev pub filled : Cells E → Ptr → List Reply → Cells E
  filled c p [] = c
  filled c p (x ∷ xs) = filled (update c p (some (object x))) (p + 1) xs

  abbrev pub emptied : Cells E → Ptr → List Reply → Cells E
  emptied c p [] = c
  emptied c p (x ∷ xs) = emptied (update c p none) (p + 1) xs

  abbrev pub Has : Cells E → Ptr → List Reply → Type 0
  Has c p [] = Unit
  Has c p (x ∷ xs) = (c p ≡ some (object x)) × Has c (p + 1) xs

  abbrev pub with_cells : Native E → ℕ → Cells E → Native E
  with_cells w n c = record w { heap = record { next = n; cell = c } }

  pub filled-below : (c : Cells E) (p q : Ptr) (xs : List Reply) → q < p → filled c p xs q ≡ c q
  filled-below c p q [] h = refl
  filled-below c p q (x ∷ xs) h =
      ground (arith, filled-below (update c p (some (object x))) (p + 1) q xs (omega (arith, h)))

  pub filled-above :
      (c : Cells E) (p q : Ptr) (xs : List Reply) → p + length xs ≤ q → filled c p xs q ≡ c q
  filled-above c p q [] h = refl
  filled-above c p q (x ∷ xs) h =
      ground (arith, h, filled-above (update c p (some (object x))) (p + 1) q xs (omega (arith, h)))

  pub Has-filled : (c : Cells E) (p : Ptr) (xs : List Reply) → Has (filled c p xs) p xs
  Has-filled c p [] = tt
  Has-filled c p (x ∷ xs) = (
    ground (arith, filled-below (update c p (some (object x))) (p + 1) p xs (omega arith)),
    Has-filled (update c p (some (object x))) (p + 1) xs,
  )

  pub Has-update :
      (c : Cells E) (p q : Ptr) (xs : List Reply) → p < q → Has c q xs → Has (update c p none) q xs
  Has-update c p q [] h has = tt
  Has-update c p q (x ∷ xs) h has =
      (ground (arith, has.0), Has-update c p (q + 1) xs (omega (arith, h)) has.1)

  -- Releasing what was put gives back the cells, if they were not in use.
  emptied-below : (c : Cells E) (p q : Ptr) (xs : List Reply) → q < p → emptied c p xs q ≡ c q
  emptied-below c p q [] h = refl
  emptied-below c p q (x ∷ xs) h =
      ground (arith, emptied-below (update c p none) (p + 1) q xs (omega (arith, h)))

  pub emptied-filled :
      (c d : Cells E) (p : Ptr) (xs : List Reply)
      → ((q : Ptr) → p ≤ q → c q ≡ none)
      → ((q : Ptr) → q < p → d q ≡ c q)
      → ((q : Ptr) → p + length xs ≤ q → d q ≡ none)
      → (q : Ptr) → emptied d p xs q ≡ c q
  emptied-filled c d p [] unused below above q = ground (arith, unused q, below q, above q)
  emptied-filled c d p (x ∷ xs) unused below above q =
      emptied-filled c (update d p none) (p + 1) xs (λ r le. unused r (omega (arith, le)))
        (λ r lt. ground (arith, below r, unused r, lt)) (λ r le. ground (arith, above r, le)) q

  pub fill_lem :
      (xs : List Reply) (w : Native E)
      → 0 < w.heap.next
      → fill E xs w
        ≡ done
            (slots w.heap.next xs)
            (with_cells w (w.heap.next + length xs) (filled w.heap.cell w.heap.next xs))
  unfolding fill save_error copy_string
  fill_lem [] w h = ground arith
  fill_lem ((s, bs) ∷ xs) w h = ground (
    arith,
    h,
    fill_lem xs
        (with_cells w (w.heap.next + 1) (update w.heap.cell w.heap.next (some (object (s, bs)))))
        (omega arith),
  )

  pub results_lem :
      (xs : List Reply) (p : Ptr) (w : Native E)
      → 0 < p
      → Has w.heap.cell p xs
      → results E (slots p xs) w ≡ done (all_results p xs) w
  unfolding results from_ll load_status
  results_lem [] p w h has = refl
  results_lem ((s, bs) ∷ xs) p w h has =
      ground (arith, h, has.0, E.is_ok_iff_code s, results_lem xs (p + 1) w (omega arith) has.1)

  -- A caller that looks at one result and lets it go.
  unfoldable pub look : Result CVec → M (Native E) Answer
  unfolding deref drop_vec status_code drop_status
  look (Result.ok v) = do bs ← deref E v; drop_vec E v; pure (found bs)
  look (Result.err e) = do c ← status_code E e; drop_status E e; pure (failed c)

  unfoldable pub look_all : List (Result CVec) → M (Native E) (List Answer)
  unfolding look
  look_all [] = pure []
  look_all (r ∷ rs) = do a ← look r; as' ← look_all rs; pure (a ∷ as')

  -- What the engine's answer means: none if its code is none that `Code` knows.
  abbrev pub failure : Option Code → Option Answer
  failure none = none
  failure (some c) = some (failed c)

  abbrev pub answer_of : Reply → Option Answer
  answer_of (s, bs) = if E.is_ok s then some (found bs) else failure (code_of_int (E.code s))

  abbrev pub cons_answer : Option Answer → Option (List Answer) → Option (List Answer)
  cons_answer (some a) (some as') = some (a ∷ as')
  cons_answer _ _ = none

  abbrev pub answers : List Reply → Option (List Answer)
  answers [] = some []
  answers (x ∷ xs) = cons_answer (answer_of x) (answers xs)

  look_lem :
      (s : E.Rep) (bs : Bytes) (p : Ptr) (w : Native E) (a : Answer)
      → 0 < p
      → w.heap.cell p ≡ some (object (s, bs))
      → answer_of (s, bs) ≡ some a
      → look (result p (s, bs)) w ≡ done a (with_cells w w.heap.next (update w.heap.cell p none))
  unfolding look
  look_lem s bs p w a h here known = elim (Bool-cases (E.is_ok s)) [
    | inl good ↦ ground (arith, h, here, known, good, take-length bs)
    | inr bad ↦ elim (Option-cases (code_of_int (E.code s))) [
      | inl strange ↦ absurd (ground (arith, known, bad, strange))
      | inr (c, code) ↦ ground (arith, h, here, known, bad, code)
    ]
  ]

  pub look_all_lem :
      (xs : List Reply) (p : Ptr) (w : Native E) (as' : List Answer)
      → 0 < p
      → Has w.heap.cell p xs
      → answers xs ≡ some as'
      → look_all (all_results p xs) w
        ≡ done as' (with_cells w w.heap.next (emptied w.heap.cell p xs))
  unfolding look_all
  look_all_lem [] p w as' h has known = ground (arith, known)
  look_all_lem ((s, bs) ∷ xs) p w as' h has known = elim (Option-cases (answer_of (s, bs))) [
    | inl strange ↦ absurd (ground (arith, known, strange))
    | inr (a, one) ↦ elim (Option-cases (answers xs)) [
      | inl strange ↦ absurd (ground (arith, known, one, strange))
      | inr (rest, more) ↦ ground (
        arith,
        known,
        one,
        more,
        look_lem s bs p w a h has.0 one,
        look_all_lem xs (p + 1) (with_cells w w.heap.next (update w.heap.cell p none)) rest
            (omega arith) (Has-update w.heap.cell p (p + 1) xs (omega arith) has.1) more,
      )
    ]
  ]
