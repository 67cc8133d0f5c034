-- ===== src/Tables.antt =====
-- The collections of src/table_properties.rs and src/debug.rs with rocks-sys/rocks: maps and vectors
-- of the library that are walked and indexed from Rust. A C++ map is the list of its entries in the
-- order in which the map walks them.
pub mod Walk
use rust_rocks.Common.{
  ℕ, zero, suc, ◌+◌, ◌<◌, ◌≡◌, Bool, true, false, not, ◌||◌, Option, none, some, List, [], ◌∷◌,
  Bytes, ◌==◌, if◌then◌else◌, length, get_elem?, ltb, leb, to_u8,
}
use rust_rocks.Ffi.{Outcome, done, panic, fault, M, pure, ◌>>=◌, ◌>>◌, assert}

-- `rocks_*_iter_t`, or null: the entries from `rep` up to `cend`.
abbrev pub RawIter : Type 0 → Type 0
RawIter A = Option (List A)

-- `TablePropertiesCollectionIter`, and `UserCollectedPropertiesIter`, which has the same fields.
pub record TablePropertiesCollectionIter (A : Type 0) : Type 0 where
  pub raw : RawIter A
  pub size : ℕ
  pub at_end : Bool

module _ {A : Type 0} where
  unfoldable pub iter_create : List A → RawIter A
  iter_create [] = none
  iter_create (x ∷ xs) = some (x ∷ xs)

  -- `it->rep++`, then whether it is not at the end
  abbrev pub advanced : List A → ℕ
  advanced [] = 0
  advanced (x ∷ xs) = 1

  unfoldable pub collection_length : List A → ℕ
  collection_length m = length m

  unfoldable pub is_empty : List A → Bool
  unfolding collection_length
  is_empty m = collection_length m == 0

  unfoldable pub iter : List A → TablePropertiesCollectionIter A
  unfolding iter_create collection_length is_empty
  iter m = record { raw = iter_create m; size = collection_length m; at_end = is_empty m }

  abbrev pub step :
      RawIter A
      → TablePropertiesCollectionIter A
      → Outcome (TablePropertiesCollectionIter A) (Option A)
  step none it = done none it
  -- the entry at `cend` is read
  step (some []) it = fault
  step (some (x ∷ xs)) it = done (some x) (record it { raw = some xs; at_end = advanced xs == 0 })

  -- `Iterator::next`
  unfoldable pub next : M (TablePropertiesCollectionIter A) (Option A)
  next it = if it.at_end then done none it else step it.raw it

  -- `Iterator::size_hint`, whose two numbers are the same
  unfoldable pub size_hint : TablePropertiesCollectionIter A → ℕ
  size_hint it = it.size

-- The iterator of `UserCollectedProperties`.
unfoldable pub user_iter : List (Bytes × Bytes) → TablePropertiesCollectionIter (Bytes × Bytes)
unfolding iter
user_iter m = iter m

unfoldable pub user_next :
    M (TablePropertiesCollectionIter (Bytes × Bytes)) (Option (Bytes × Bytes))
unfolding next
user_next = next

-- `KeyVersionVec` is a `std::vector`; its iterator has an index into it.
pub record KeyVersionVecIter (A : Type 0) : Type 0 where
  pub vec : List A
  pub idx : ℕ

module _ {A : Type 0} where
  -- `&v[n]`, which is undefined at the end and beyond
  abbrev pub found : {W : Type 0} → Option A → M W A
  found none w = fault
  found (some x) w = done x w

  unfoldable pub nth : {W : Type 0} → List A → ℕ → M W A
  nth v n = found (get_elem? v n)

  -- `KeyVersionVec::iter`
  unfoldable pub versions : List A → KeyVersionVecIter A
  versions v = record { vec = v; idx = 0 }

  -- `Index for KeyVersionVec`
  unfoldable pub index : {W : Type 0} → List A → ℕ → M W A
  unfolding nth
  index v i = assert (ltb i (length v)) >> nth v i

  unfoldable pub next_version : M (KeyVersionVecIter A) (Option A)
  unfolding nth
  next_version it =
      if leb (length it.vec) it.idx
      then done none it
      else (nth it.vec it.idx >>= λ p. λ w. done (some p) (record w { idx = w.idx + 1 })) it

-- A `for` loop over a Rust iterator, with fuel: the items, and `none` if the fuel ran out.
abbrev pub push_front :
    {W A : Type 0} → A → Outcome W (Option (List A)) → Outcome W (Option (List A))
push_front a (done none w) = done none w
push_front a (done (some xs) w) = done (some (a ∷ xs)) w
push_front a (panic w) = panic w
push_front a fault = fault

abbrev pub loop_on :
    {W A : Type 0}
    → Outcome W (Option A)
    → (W → Outcome W (Option (List A)))
    → Outcome W (Option (List A))
loop_on (done none w) rest = done (some []) w
loop_on (done (some a) w) rest = push_front a (rest w)
loop_on (panic w) rest = panic w
loop_on fault rest = fault

abbrev pub loop : {W A : Type 0} → M W (Option A) → ℕ → W → Outcome W (Option (List A))
loop m zero w = done none w
loop m (suc n) w = loop_on (m w) (loop m n)
