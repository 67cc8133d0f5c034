-- ===== src/Ffi.antt =====
-- The native heap behind the raw pointers of src/*.rs, and the effects of a call: objects made by
-- `new` in rocks-sys/rocks/*.cc or by `Box::into_raw`, read through their pointer, and given back
-- by `delete` or `Box::from_raw`. A read or a release of an address that holds no object is a
-- fault, which is what a dangling pointer or a double free is. A Rust panic keeps the world as it
-- was when the panic began.
pub mod Laws
pub mod Object
use rust_rocks.Common.{ℕ, ◌+◌, ◌≤◌, ◌<◌, ◌≡◌, Bool, Option, none, some, ◌==◌, if◌then◌else◌}

abbrev pub Ptr : Type 0
Ptr = ℕ

abbrev pub null : Ptr
null = 0

pub record Heap (Obj : Type 0) : Type 0 where
  pub next : Ptr
  pub cell : Ptr → Option Obj

-- The native heap and the state `S` of what the calls are made to.
pub record World (Obj S : Type 0) : Type 0 where
  pub heap : Heap Obj
  pub state : S

pub data Outcome (W A : Type 0) : Type 0 where
  done : A → W → Outcome W A
  panic : W → Outcome W A
  fault : Outcome W A

abbrev pub M : Type 0 → Type 0 → Type 0
M W A = W → Outcome W A

module _ {W : Type 0} where
  abbrev pub pure : {A : Type 0} → A → M W A
  pure a w = done a w

  abbrev pub and_then : {A B : Type 0} → Outcome W A → (A → M W B) → Outcome W B
  and_then (done a w) k = k a w
  and_then (panic w) k = panic w
  and_then fault k = fault

  infixl 5 ◌>>=◌ ◌>>◌
  abbrev pub ◌>>=◌ : {A B : Type 0} → M W A → (A → M W B) → M W B
  m >>= k = λ w. and_then (m w) k

  abbrev pub ◌>>◌ : {A B : Type 0} → M W A → M W B → M W B
  m >> n = m >>= λ _. n

  -- `assert!(b)`
  abbrev pub assert : Bool → M W (Unit {0})
  assert b w = if b then done tt w else panic w

abbrev pub update : {A : Type 0} → (Ptr → A) → Ptr → A → Ptr → A
update f p a q = if q == p then a else f q

module _ {Obj S : Type 0} where
  -- `new T{...}`
  abbrev pub alloc : Obj → M (World Obj S) Ptr
  alloc o w = done w.heap.next (record w {
    heap = record { next = w.heap.next + 1; cell = update w.heap.cell w.heap.next (some o) };
  })

  -- `*p`
  abbrev pub load : Ptr → M (World Obj S) Obj
  load p w = elim (w.heap.cell p) [ none ↦ fault | some o ↦ done o w ]

  -- `*p = o`
  abbrev pub store : Ptr → Obj → M (World Obj S) (Unit {0})
  store p o w = elim (w.heap.cell p) [
    | none ↦ fault
    | some _ ↦ done tt (record w { heap = record w.heap { cell = update w.heap.cell p (some o) } })
  ]

  -- `delete p`
  abbrev pub free : Ptr → M (World Obj S) (Unit {0})
  free p w = elim (w.heap.cell p) [
    | none ↦ fault
    | some _ ↦ done tt (record w { heap = record w.heap { cell = update w.heap.cell p none } })
  ]

-- What the allocator promises: addresses from `next` on are unused, and none is null.
pub record IsHeap {Obj : Type 0} (h : Heap Obj) : Type 0 where
  pub positive : 0 < h.next
  pub unused : (p : Ptr) → h.next ≤ p → h.cell p ≡ none

-- The same objects at the same addresses: nothing leaked, nothing lost.
abbrev pub SameCells : {Obj : Type 0} → Heap Obj → Heap Obj → Type 0
SameCells h g = (p : Ptr) → g.cell p ≡ h.cell p
