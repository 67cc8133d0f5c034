-- ===== src/Options/Struct.antt =====
-- Native options structs (rocks-sys/rocks/ctypes.hpp): what their members hold, and the reads and
-- writes through a pointer that rocks-sys/rocks/options.cc and table.cc make. The members of the
-- structs, which RocksDB declares, are the keys of a function; `Kind` says which native object a
-- struct is. What a shared pointer points to is known by a number; how many share it is kept for the
-- boxes of Rust trait objects only.
use rust_rocks.Common.{
  ℕ, ◌≡◌, refl, Bool, true, false, Option, none, some, List, [], ◌∷◌, ◌++◌, Bytes, to_u8, of_u8,
}
use mathlib.Core.Logic.{ite}
use rust_rocks.Options.Fields.{BlockField, PlainField, CuckooField, UniversalField, FifoField}
use rust_rocks.Ffi.{Ptr, World, done, fault, M, pure, ◌>>=◌, ◌>>◌, load, store, free}

-- What RocksDB makes from numbers on request.
pub data Maker : Type 0 where
  fixed_prefix_transform capped_prefix_transform noop_transform : Maker
  vector_rep hash_skip_list_rep hash_link_list_rep hash_cuckoo_rep : Maker
  bytewise_comparator reverse_bytewise_comparator : Maker

pub data Value : Type 0 where
  flag : Bool → Value
  -- the bits of an integer or a double, or the integer of an enum
  number : ℕ → Value
  text : Bytes → Value
  numbers : List ℕ → Value
  -- `std::vector<DbPath>`
  paths : List (Bytes × ℕ) → Value
  -- a pointer, plain or shared, to what is known by the number; `none` is null
  pointer : Option ℕ → Value
  built : Maker → List ℕ → Value
  -- a new native object around the Rust trait object at the address, behind a plain or a shared
  -- pointer
  wrapped : Ptr → Value
  -- a vector of shared pointers to such objects
  all_wrapped : List Ptr → Value
  -- a table factory, or the options of a compaction style, made from a copy of the options
  block_based_factory : (BlockField → Value) → Value
  plain_factory : (PlainField → Value) → Value
  cuckoo_factory : (CuckooField → Value) → Value
  universal_style : (UniversalField → Value) → Value
  fifo_style : (FifoField → Value) → Value

-- The members of a struct and what they hold.
abbrev pub Settings : Type 0 → Type 0
Settings Field = Field → Value

-- A plain or shared pointer read from a member.
abbrev pub pointer_of : Value → Option ℕ
pointer_of (pointer p) = p
pointer_of _ = none

-- `push_back` on a vector of native objects around trait objects
abbrev pub push_wrapped : Value → Ptr → Value
push_wrapped (all_wrapped ps) p = all_wrapped (ps ++ (p ∷ []))
push_wrapped _ p = all_wrapped (p ∷ [])

-- The boxes behind a value.
abbrev pub boxes : Value → List Ptr
boxes (wrapped p) = p ∷ []
boxes (all_wrapped ps) = ps
boxes _ = []

abbrev pub only : {A : Type 0} → Bool → List A → List A
only true xs = xs
only false xs = []

pub only-nil : {A : Type 0} (b : Bool) → only {A = A} b [] ≡ []
only-nil true = refl
only-nil false = refl

-- A kind of native struct: its objects among all objects, its members, and which of the members are
-- shared pointers to native objects around trait objects.
pub record Kind (Obj Field : Type 0) : Type 0 where
  pub wrap : Settings Field → Obj
  pub unwrap : Obj → Option (Settings Field)
  pub unwrap-wrap : (s : Settings Field) → unwrap (wrap s) ≡ some s
  pub discrete : Discrete Field
  pub owns : Field → Bool
  -- An object that loses one of its owners: `none` where it has none, `some none` for the last.
  pub release : Obj → Option (Option Obj)

module _ {Obj Field : Type 0} (K : Kind Obj Field) where
  abbrev pub put_member : Settings Field → Field → Value → Settings Field
  put_member s f v g = ite (K.discrete g f) v (s g)

  -- The boxes that a member owns.
  abbrev pub owned : Field → Value → List Ptr
  owned f v = only (K.owns f) (boxes v)

  -- No member owns a box.
  abbrev pub IsPlain : Settings Field → Type 0
  IsPlain s = (f : Field) → owned f (s f) ≡ []

module _ {Obj Field S : Type 0} (K : Kind Obj Field) where
  -- A cast pointer to another kind of object is a fault.
  abbrev pub expect_settings : Option (Settings Field) → M (World Obj S) (Settings Field)
  expect_settings none w = fault
  expect_settings (some s) w = done s w

  -- `opt->rep`
  unfoldable pub read_struct : Ptr → M (World Obj S) (Settings Field)
  read_struct p = do o ← load p; expect_settings (K.unwrap o)

  -- A shared pointer gives up its object, which the last one deletes, with the box.
  abbrev pub release_as : Option (Option Obj) → Ptr → M (World Obj S) (Unit {0})
  release_as none p w = fault
  release_as (some none) p w = free p w
  release_as (some (some o)) p w = store p o w

  abbrev pub release_all : List Ptr → M (World Obj S) (Unit {0})
  release_all [] = pure tt
  release_all (p ∷ ps) = do o ← load p; release_as (K.release o) p; release_all ps

  -- `opt->rep.f.emplace_back(...)`, which leaves what the member had in `v`
  unfoldable pub append_member : Ptr → Field → Value → M (World Obj S) (Unit {0})
  unfolding read_struct
  append_member p f v = do s ← read_struct p; store p (K.wrap (put_member K s f v))

  -- `opt->rep.f = v`, where a shared pointer gives up what it pointed to
  unfoldable pub set_member : Ptr → Field → Value → M (World Obj S) (Unit {0})
  unfolding read_struct
  set_member p f v = do
    s ← read_struct p
    store p (K.wrap (put_member K s f v))
    release_all (owned K f (s f))

-- `unsigned char` to `bool`
abbrev pub flag_of : ℕ → Value
flag_of n = flag (of_u8 n)

pub flag_of-to_u8 : (b : Bool) → flag_of (to_u8 b) ≡ flag b
flag_of-to_u8 true = refl
flag_of-to_u8 false = refl
