-- ===== src/Cursor/Collect.antt =====
-- What the loops over `IntoIter` and `IntoRevIter` take from the source.
use rust_rocks.Common.{
  ℕ, zero, suc, ◌+◌, ◌-◌, ◌≤◌, ◌<◌, ◌≡◌, ◌∙◌, true, false, Option, none, some, List, [], ◌∷◌, Bytes,
  map, length, take, drop, arith, inl, inr, Bool-cases, Option-cases, ltb, drop-get_elem?,
  take-get_elem?, drop-all, get_elem?-bound,
}
use mathlib.Core.List.{reverse, reverse-append}
use rust_rocks.Ffi.{done, panic, M, ◌>>=◌}
use rust_rocks.Cursor.{
  Cursors, Entry, is_key_pinned, is_ok_one, into_iter, into_rev_iter, next, rev_next, take_keys,
  is_valid,
}

-- The key of an entry, read from its slice.
abbrev pub key_of : Entry → Option Bytes
key_of e = some e.0

module _ (C : Cursors) where
  -- From an iterator that is not valid, the loop takes nothing.
  stop_lem : (c : C.Cursor) (n : ℕ) → C.position c ≡ none → take_keys C (next C) (suc n) c ≡ some []
  unfolding next is_valid
  stop_lem c n h = ground (arith, C.invalid_iff_position c h)

  rev_stop_lem :
      (c : C.Cursor) (n : ℕ) → C.position c ≡ none → take_keys C (rev_next C) (suc n) c ≡ some []
  unfolding rev_next is_valid
  rev_stop_lem c n h = ground (arith, C.invalid_iff_position c h)

  -- What one valid step of the loop takes.
  step_lem :
      (c : C.Cursor) (i n : ℕ) (es : List (Option Bytes))
      → C.position c ≡ some i
      → is_ok_one (C.get_property is_key_pinned c) ≡ true
      → take_keys C (next C) n (C.next c) ≡ some es
      → take_keys C (next C) (suc n) c ≡ some (some (C.key c) ∷ es)
  unfolding next is_valid
  step_lem c i n es h pin rest =
      let live = C.valid_iff_position c i h in ground (arith, live, C.key_at-next c live pin, rest)

  rev_step_lem :
      (c : C.Cursor) (i n : ℕ) (es : List (Option Bytes))
      → C.position c ≡ some i
      → is_ok_one (C.get_property is_key_pinned c) ≡ true
      → take_keys C (rev_next C) n (C.prev c) ≡ some es
      → take_keys C (rev_next C) (suc n) c ≡ some (some (C.key c) ∷ es)
  unfolding rev_next is_valid
  rev_step_lem c i n es h pin rest =
      let live = C.valid_iff_position c i h in ground (arith, live, C.key_at-prev c live pin, rest)

  forward_lem :
      (pinned : (c : C.Cursor) (i : ℕ)
        → C.position c ≡ some i
        → is_ok_one (C.get_property is_key_pinned c) ≡ true)
      (n : ℕ) (c : C.Cursor) (i : ℕ)
      → C.position c ≡ some i
      → length (C.entries c) ≤ i + n
      → take_keys C (next C) (suc n) c ≡ some (map key_of (drop i (C.entries c)))
  forward_lem pinned zero c i h fuel =
      absurd (
        omega
          (arith, get_elem?-bound (C.entries c) i (C.key c, C.value c) (C.entry-position c i h)))
  forward_lem pinned (suc n) c i h fuel =
      let cut = drop-get_elem? (C.entries c) i (C.key c, C.value c) (C.entry-position c i h) in
      elim (Bool-cases (ltb (suc i) (length (C.entries c)))) [
        | inl more ↦ rw cut (
            step_lem c i (suc n) (map key_of (drop (suc i) (C.entries c))) h (pinned c i h) (
              rw (C.entries-next c) at (
                forward_lem pinned n (C.next c) (suc i) (rw more at (C.position-next c i h))
                  (rw (C.entries-next c) (omega arith)))))
        | inr last ↦
            rw (cut, drop-all (C.entries c) (suc i) (ground (arith, last)))
              (step_lem c i (suc n) [] h (pinned c i h)
                (stop_lem (C.next c) n (rw last at (C.position-next c i h))))
      ]

  backward_lem :
      (pinned : (c : C.Cursor) (i : ℕ)
        → C.position c ≡ some i
        → is_ok_one (C.get_property is_key_pinned c) ≡ true)
      (i : ℕ) (n : ℕ) (c : C.Cursor)
      → C.position c ≡ some i
      → i < n
      → take_keys C (rev_next C) (suc n) c
        ≡ some (map key_of (reverse (take (suc i) (C.entries c))))
  backward_lem pinned i zero c h fuel = absurd (omega arith)
  backward_lem pinned zero (suc n) c h fuel =
      let cut = take-get_elem? (C.entries c) 0 (C.key c, C.value c) (C.entry-position c 0 h) in
      rw cut (
        rev_step_lem c 0 (suc n) [] h (pinned c 0 h)
          (rev_stop_lem (C.prev c) n (C.position-prev_zero c h)))
  backward_lem pinned (suc i) (suc n) c h fuel =
      let cut =
        take-get_elem? (C.entries c) (suc i) (C.key c, C.value c) (C.entry-position c (suc i) h) in
      rw (cut, reverse-append (take (suc i) (C.entries c)) ((C.key c, C.value c) ∷ []))
        (rev_step_lem c (suc i) (suc n) (map key_of (reverse (take (suc i) (C.entries c)))) h
          (pinned c (suc i) h)
          (rw (C.entries-prev c) at
            (backward_lem pinned i n (C.prev c) (C.position-prev c i h) (omega arith))))

  -- Where the loop of `into_iter` begins: at the position, or else at the first entry.
  abbrev pub start : Option ℕ → ℕ
  start none = 0
  start (some i) = i

  -- The end of the loop of `into_rev_iter`, exclusive: after the position, or else after the last.
  abbrev pub stop : Option ℕ → ℕ → ℕ
  stop none n = n
  stop (some i) n = suc i

  -- The whole loop `for e in it.into_iter()`, with fuel; a panic if the keys are not pinned.
  abbrev pub iter_all : ℕ → M C.Cursor (Option (List (Option Bytes)))
  unfolding into_iter
  iter_all n = into_iter C >>= λ _. λ c. done (take_keys C (next C) n c) c

  abbrev pub rev_iter_all : ℕ → M C.Cursor (Option (List (Option Bytes)))
  unfolding into_rev_iter
  rev_iter_all n = into_rev_iter C >>= λ _. λ c. done (take_keys C (rev_next C) n c) c

module _ (C : Cursors)
    -- the keys are pinned: the property reads "1" wherever the iterator is at an entry
    (pinned : (c : C.Cursor) (i : ℕ)
      → C.position c ≡ some i
      → is_ok_one (C.get_property is_key_pinned c) ≡ true)
    (c : C.Cursor) (n : ℕ) (some_entry : 0 < length (C.entries c))
    (enough : length (C.entries c) ≤ n) where
  first_lem : C.position c ≡ none → C.position (C.seek_to_first c) ≡ some 0
  first_lem h = C.position-seek_to_first c ∙ ground (arith, some_entry)

  last_lem :
      C.position c ≡ none
      → ((i : ℕ) × (length (C.entries c) ≡ suc i) × (C.position (C.seek_to_last c) ≡ some i))
  last_lem h = (
    length (C.entries c) - 1,
    omega (arith, some_entry),
    C.position-seek_to_last c (length (C.entries c) - 1) (omega (arith, some_entry)),
  )

  -- If the keys are pinned and the source is not empty, the loop over `into_iter` can read the keys of the entries
  -- in order from the iterator's position on, or all of them if it was not valid. Fuel of one more
  -- than the number of entries is enough.
  pub iter_all-drop :
      (c' : C.Cursor) × (iter_all C (suc n) c
        ≡ done (some (map key_of (drop (start C (C.position c)) (C.entries c)))) c')
  unfolding into_iter is_valid
  iter_all-drop = elim (Option-cases (C.position c)) [
    | inl nowhere ↦ (
      C.seek_to_first c,
      ground (
        arith,
        nowhere,
        C.invalid_iff_position c nowhere,
        pinned (C.seek_to_first c) 0 (first_lem nowhere),
        C.entries-seek_to_first c,
        forward_lem C pinned n (C.seek_to_first c) 0 (first_lem nowhere)
            (rw (C.entries-seek_to_first c) (omega (arith, enough))),
      ),
    )
    | inr (i, here) ↦ (
      c,
      ground (
        arith,
        here,
        C.valid_iff_position c i here,
        pinned c i here,
        forward_lem C pinned n c i here (omega (arith, enough)),
      ),
    )
  ]

  -- If the keys are pinned and the source is not empty, the loop over `into_rev_iter` can read
  -- the keys in the reverse order, back from the iterator's position, or from the last entry if it
  -- was not valid. Fuel of one more than the number of entries is enough.
  pub rev_iter_all-reverse :
      (c' : C.Cursor) × (rev_iter_all C (suc n) c
        ≡ done
            (some (
              map key_of
                (reverse (take (stop C (C.position c) (length (C.entries c))) (C.entries c)))))
            c')
  unfolding into_rev_iter is_valid
  rev_iter_all-reverse = elim (Option-cases (C.position c)) [
    | inl nowhere ↦
        let (i, count, here) = last_lem nowhere in
        (
          C.seek_to_last c,
          ground (
            arith,
            nowhere,
            count,
            C.invalid_iff_position c nowhere,
            pinned (C.seek_to_last c) i here,
            C.entries-seek_to_last c,
            backward_lem C pinned i n (C.seek_to_last c) here (omega (arith, count, enough)),
          ),
        )
    | inr (i, here) ↦ (
      c,
      ground (
        arith,
        here,
        C.valid_iff_position c i here,
        pinned c i here,
        backward_lem C pinned i n c here (
            omega (
              arith,
              enough,
              get_elem?-bound (C.entries c) i (C.key c, C.value c) (C.entry-position c i here),
            )),
      ),
    )
  ]

  -- If the keys are pinned and the source is not empty, a loop over `into_iter` can read the keys of
  -- the entries, in order from the iterator's position on, or all of them if it was not valid; a loop
  -- over `into_rev_iter` can read them in the reverse order, back from the iterator's position, or
  -- from the last entry if it was not valid. Fuel of one more than the number of entries is enough.
  pub both_iter_all-keys :
      ((c' : C.Cursor) × (iter_all C (suc n) c
          ≡ done (some (map key_of (drop (start C (C.position c)) (C.entries c)))) c'))
      × ((c' : C.Cursor) × (rev_iter_all C (suc n) c
            ≡ done
                (some (
                  map key_of
                    (reverse (take (stop C (C.position c) (length (C.entries c))) (C.entries c)))))
                c'))
  both_iter_all-keys = (iter_all-drop, rev_iter_all-reverse)

position_empty : (C : Cursors) (c : C.Cursor) → length (C.entries c) ≡ 0 → C.position c ≡ none
position_empty C c empty = elim (Option-cases (C.position c)) [
  | inl nowhere ↦ nowhere
  | inr (i, here) ↦ absurd (
      omega (
        arith,
        empty,
        get_elem?-bound (C.entries c) i (C.key c, C.value c) (C.entry-position c i here),
      ))
]

-- On an empty source `into_iter` panics, if the property of an iterator at no entry does not read
-- "1".
pub into_iter-empty :
    (C : Cursors) (c : C.Cursor)
    → ((d : C.Cursor) → C.position d ≡ none → is_ok_one (C.get_property is_key_pinned d) ≡ false)
    → length (C.entries c) ≡ 0
    → into_iter C c ≡ panic (C.seek_to_first c)
unfolding into_iter is_valid
into_iter-empty C c unpinned empty =
    let nowhere : C.position c ≡ none = position_empty C c empty in
    ground (
      arith,
      C.invalid_iff_position c nowhere,
      unpinned (C.seek_to_first c) (C.position-seek_to_first c ∙ ground (arith, empty)),
    )
