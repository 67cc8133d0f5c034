-- ===== src/Tests/Cursors.antt =====
-- Tests of Cursor, with an iterator that is a list and an index, whose keys are pinned, and whose
-- values are not.
use rust_rocks.Common.{
  ℕ, zero, suc, ◌-◌, ◌≡◌, refl, ap, Bool, true, false, Option, none, some, List, [], ◌∷◌, ◌==◌,
  if◌then◌else◌, length, get_elem?, ltb, arith,
}
use rust_rocks.Ffi.{done, panic}
use rust_rocks.Cursor.{Cursors, Entry, into_iter, is_key_pinned, is_ok_one}
use rust_rocks.Cursor.Collect.{iter_all, rev_iter_all, both_iter_all-keys, into_iter-empty}

-- A list and an index, which is none or one of the list's.
abbrev Toy : Type 0
Toy = List Entry × Option ℕ

abbrev within : List Entry → Option ℕ → Option ℕ
within es none = none
within es (some i) = if ltb i (length es) then some i else none

abbrev at : Toy → Option ℕ
at c = within c.0 c.1

abbrev is_some : Option ℕ → Bool
is_some none = false
is_some (some i) = true

abbrev entry_at : Option Entry → Entry
entry_at none = ([], [])
entry_at (some e) = e

abbrev entry_of : List Entry → Option ℕ → Entry
entry_of es none = ([], [])
entry_of es (some i) = entry_at (get_elem? es i)

abbrev after : Option ℕ → Option ℕ
after none = none
after (some i) = some (suc i)

abbrev before : Option ℕ → Option ℕ
before none = none
before (some zero) = none
before (some (suc i)) = some i

within_lem :
    (es : List Entry) (o : Option ℕ) (i : ℕ)
    → within es o ≡ some i
    → (o ≡ some i) × (ltb i (length es) ≡ true)
within_lem es none i h = absurd cc
within_lem es (some j) i h = (ground (arith, h), ground (arith, h))

entry_lem :
    (es : List Entry) (i : ℕ)
    → ltb i (length es) ≡ true
    → get_elem? es i ≡ some (entry_at (get_elem? es i))
entry_lem [] i h = absurd (ground (arith, h))
entry_lem (e ∷ es) zero h = refl
entry_lem (e ∷ es) (suc i) h = entry_lem es i (ground (arith, h))

entry-at :
    (es : List Entry) (o : Option ℕ) (i : ℕ)
    → within es o ≡ some i
    → get_elem? es i ≡ some (entry_of es (within es o))
entry-at es o i h = rw h (entry_lem es i (within_lem es o i h).1)

first-at : (es : List Entry) → within es (some 0) ≡ (if length es == 0 then none else some 0)
first-at es = ground arith

last-at : (es : List Entry) (n : ℕ) → length es ≡ suc n → within es (some (length es - 1)) ≡ some n
last-at es n h = ground (arith, h)

next-at :
    (es : List Entry) (o : Option ℕ) (i : ℕ)
    → within es o ≡ some i
    → within es (after (within es o)) ≡ (if ltb (suc i) (length es) then some (suc i) else none)
next-at es o i h = ground (arith, h)

prev-at :
    (es : List Entry) (o : Option ℕ) (i : ℕ)
    → within es o ≡ some (suc i)
    → within es (before (within es o)) ≡ some i
prev-at es o i h = ground (arith, h, (within_lem es o (suc i) h).1)

prev-at_zero :
    (es : List Entry) (o : Option ℕ)
    → within es o ≡ some 0
    → within es (before (within es o)) ≡ none
prev-at_zero es o h = ground (arith, h)

abbrev toy_cursors : Cursors
toy_cursors = record {
  Cursor = Toy;
  valid = λ c. is_some (at c);
  seek_to_first = λ c. (c.0, some 0);
  seek_to_last = λ c. (c.0, some (length c.0 - 1));
  seek = λ k c. (c.0, some 0);
  seek_for_prev = λ k c. (c.0, some 0);
  next = λ c. (c.0, after (at c));
  prev = λ c. (c.0, before (at c));
  key = λ c. (entry_of c.0 (at c)).0;
  value = λ c. (entry_of c.0 (at c)).1;
  key_at = λ c d. some (entry_of c.0 (at c)).0;
  value_at = λ c d. none;
  get_property = λ p c. if is_some (at c) then some (b'1' ∷ []) else some [];
  entries = λ c. c.0;
  position = at;
  valid_iff_position = λ c i h. ap is_some h;
  invalid_iff_position = λ c h. ap is_some h;
  entry-position = λ c i h. entry-at c.0 c.1 i h;
  position-seek_to_first = λ c. first-at c.0;
  entries-seek_to_first = λ c. refl;
  position-seek_to_last = λ c n h. last-at c.0 n h;
  entries-seek_to_last = λ c. refl;
  position-next = λ c i h. next-at c.0 c.1 i h;
  entries-next = λ c. refl;
  position-prev = λ c i h. prev-at c.0 c.1 i h;
  position-prev_zero = λ c h. prev-at_zero c.0 c.1 h;
  entries-prev = λ c. refl;
  key_at-next = λ c live pin. refl;
  key_at-prev = λ c live pin. refl;
}

toy-pinned :
    (c : Toy) (i : ℕ) → at c ≡ some i → is_ok_one (toy_cursors.get_property is_key_pinned c) ≡ true
toy-pinned c i h = rw h refl

toy-unpinned :
    (c : Toy) → at c ≡ none → is_ok_one (toy_cursors.get_property is_key_pinned c) ≡ false
toy-unpinned c h = rw h refl

abbrev two : List Entry
two = (b'a' ∷ [], b'x' ∷ []) ∷ (b'b' ∷ [], b'y' ∷ []) ∷ []

both_iter_all-keys_example :
    ((c' : Toy) × (iter_all toy_cursors 3 (two, some 1) ≡ done (some (some (b'b' ∷ []) ∷ [])) c'))
    × ((c' : Toy) × (rev_iter_all toy_cursors 3 (two, some 1)
          ≡ done (some (some (b'b' ∷ []) ∷ some (b'a' ∷ []) ∷ [])) c'))
both_iter_all-keys_example =
    both_iter_all-keys toy_cursors toy-pinned (two, some 1) 2 (omega arith) (omega arith)

into_iter-empty_example : into_iter toy_cursors ([], none) ≡ panic ([], some 0)
into_iter-empty_example = into_iter-empty toy_cursors ([], none) toy-unpinned refl
