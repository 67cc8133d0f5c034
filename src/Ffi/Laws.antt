-- ===== src/Ffi/Laws.antt =====
-- Lemmas on the native heap.
use rust_rocks.Common.{◌+◌, ◌≡◌, refl, ◌≢◌, none, some, arith}
use rust_rocks.Ffi.{
  Ptr, null, Heap, update, IsHeap, SameCells, Outcome, done, panic, fault, M, and_then,
}

module _ {Obj : Type 0} {h : Heap Obj} (is : IsHeap h) where
  pub next-ne-null : h.next ≢ null
  next-ne-null e = omega (arith, is.positive)

  pub IsHeap-alloc :
      (o : Obj) → IsHeap (record { next = h.next + 1; cell = update h.cell h.next (some o) })
  IsHeap-alloc o = record { positive = omega arith; unused = λ p le. ground (arith, is.unused p) }

  pub IsHeap-free : (p : Ptr) → IsHeap (record h { cell = update h.cell p none })
  IsHeap-free q = record { positive = is.positive; unused = λ p le. ground (arith, is.unused p) }

  -- An object that is released again leaves the heap as it was.
  pub SameCells-alloc_free :
      (o : Obj)
      → SameCells h
          (record { next = h.next + 1; cell = update (update h.cell h.next (some o)) h.next none })
  SameCells-alloc_free o p = ground (arith, is.unused p)

pub and_then_assoc :
    {W A B C : Type 0} (o : Outcome W A) (f : A → M W B) (g : B → M W C)
    → and_then (and_then o f) g ≡ and_then o (λ a w. and_then (f a w) g)
and_then_assoc (done a w) f g = refl
and_then_assoc (panic w) f g = refl
and_then_assoc fault f g = refl
