-- ===== src/Cursor.antt =====
-- src/iterator.rs and rocks-sys/rocks/iterator.cc: database iterators and the Rust iterators that
-- they are turned into. `rocksdb::Iterator` is a parameter; a `rocks_iterator_t` holds one.
pub mod Collect
use rust_rocks.Common.{
  ℕ, zero, suc, ◌+◌, ◌<◌, ◌≡◌, Bool, true, false, not, Option, none, some, List, [], ◌∷◌, Bytes,
  ◌==◌, if◌then◌else◌, length, get_elem?, ltb,
}
use rust_rocks.Ffi.{Outcome, done, M, pure, ◌>>=◌, ◌>>◌, assert}

abbrev pub Entry : Type 0
Entry = Bytes × Bytes

-- What can be read of a key slice and of a value slice.
abbrev pub Item : Type 0
Item = Option Bytes × Option Bytes

-- "rocksdb.iterator.is-key-pinned"
abbrev pub is_key_pinned : Bytes
is_key_pinned =
    b'r' ∷ b'o' ∷ b'c' ∷ b'k' ∷ b's' ∷ b'd' ∷ b'b' ∷ b'.' ∷ b'i' ∷ b't' ∷ b'e' ∷ b'r' ∷ b'a' ∷ b't'
    ∷ b'o' ∷ b'r' ∷ b'.' ∷ b'i' ∷ b's' ∷ b'-' ∷ b'k' ∷ b'e' ∷ b'y' ∷ b'-' ∷ b'p' ∷ b'i' ∷ b'n'
    ∷ b'n' ∷ b'e' ∷ b'd' ∷ []

-- The test `== Ok("1".to_owned())`.
abbrev pub is_ok_one : Option Bytes → Bool
is_ok_one (some (b ∷ [])) = b == b'1'
is_ok_one _ = false

-- `rocksdb::Iterator`: an ordered source of entries, and a position in it or none.
pub record Cursors : Type 1 where
  pub Cursor : Type 0
  pub valid : Cursor → Bool
  pub seek_to_first : Cursor → Cursor
  pub seek_to_last : Cursor → Cursor
  pub seek : Bytes → Cursor → Cursor
  pub seek_for_prev : Bytes → Cursor → Cursor
  pub next : Cursor → Cursor
  pub prev : Cursor → Cursor
  pub key : Cursor → Bytes
  pub value : Cursor → Bytes
  -- What can be read, where the iterator is now, of the key or the value slice that was taken when
  -- it was at the first cursor; `none` if the memory is gone.
  pub key_at : Cursor → Cursor → Option Bytes
  pub value_at : Cursor → Cursor → Option Bytes
  -- the text of the property, if the status is ok
  pub get_property : Bytes → Cursor → Option Bytes
  pub entries : Cursor → List Entry
  pub position : Cursor → Option ℕ
  pub valid_iff_position : (c : Cursor) (i : ℕ) → position c ≡ some i → valid c ≡ true
  pub invalid_iff_position : (c : Cursor) → position c ≡ none → valid c ≡ false
  pub entry-position :
      (c : Cursor) (i : ℕ) → position c ≡ some i → get_elem? (entries c) i ≡ some (key c, value c)
  pub position-seek_to_first :
      (c : Cursor) → position (seek_to_first c) ≡ (if length (entries c) == 0 then none else some 0)
  pub entries-seek_to_first : (c : Cursor) → entries (seek_to_first c) ≡ entries c
  pub position-seek_to_last :
      (c : Cursor) (n : ℕ) → length (entries c) ≡ suc n → position (seek_to_last c) ≡ some n
  pub entries-seek_to_last : (c : Cursor) → entries (seek_to_last c) ≡ entries c
  pub position-next :
      (c : Cursor) (i : ℕ)
      → position c ≡ some i
      → position (next c) ≡ (if ltb (suc i) (length (entries c)) then some (suc i) else none)
  pub entries-next : (c : Cursor) → entries (next c) ≡ entries c
  pub position-prev : (c : Cursor) (i : ℕ) → position c ≡ some (suc i) → position (prev c) ≡ some i
  pub position-prev_zero : (c : Cursor) → position c ≡ some 0 → position (prev c) ≡ none
  pub entries-prev : (c : Cursor) → entries (prev c) ≡ entries c
  -- A pinned key lives as long as the iterator.
  pub key_at-next :
      (c : Cursor)
      → valid c ≡ true
      → is_ok_one (get_property is_key_pinned c) ≡ true
      → key_at c (next c) ≡ some (key c)
  pub key_at-prev :
      (c : Cursor)
      → valid c ≡ true
      → is_ok_one (get_property is_key_pinned c) ≡ true
      → key_at c (prev c) ≡ some (key c)

module _ (C : Cursors) where
  unfoldable pub is_valid : C.Cursor → Bool
  is_valid c = C.valid c

  -- `Iterator::into_iter`, whose state is the iterator
  unfoldable pub into_iter : M C.Cursor (Unit {0})
  unfolding is_valid
  into_iter c =
      let c' = if not (is_valid c) then C.seek_to_first c else c in
      assert (is_ok_one (C.get_property is_key_pinned c')) c'

  unfoldable pub into_rev_iter : M C.Cursor (Unit {0})
  unfolding is_valid
  into_rev_iter c =
      let c' = if not (is_valid c) then C.seek_to_last c else c in
      assert (is_ok_one (C.get_property is_key_pinned c')) c'

  -- `IntoIter::next`: the slices are taken before the iterator moves, and returned after that. The
  -- item is what can then be read of them.
  unfoldable pub next : C.Cursor → Option Item × C.Cursor
  unfolding is_valid
  next c =
      let c' = C.next c in
      if is_valid c then (some (C.key_at c c', C.value_at c c'), c') else (none, c)

  -- `IntoRevIter::next`
  unfoldable pub rev_next : C.Cursor → Option Item × C.Cursor
  unfolding is_valid
  rev_next c =
      let c' = C.prev c in
      if is_valid c then (some (C.key_at c c', C.value_at c c'), c') else (none, c)

  -- A `for` loop over what `step` gives that reads the keys, with fuel.
  abbrev pub take_keys :
      (C.Cursor → Option Item × C.Cursor) → ℕ → C.Cursor → Option (List (Option Bytes))
  take_keys step zero c = none
  take_keys step (suc n) c =
      let rest = take_keys step n (step c).1 in
      elim (step c).0 [
        | none ↦ some []
        | some item ↦ elim rest [ none ↦ none | some keys ↦ some (item.0 ∷ keys) ]
      ]
