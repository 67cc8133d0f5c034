-- ===== src/Db/Read/Lookup.antt =====
-- What a lookup finds, and what it leaves in the native heap.
use rust_rocks.Common.{
  ◌+◌, ◌≡◌, refl, true, false, none, some, [], Bytes, if◌then◌else◌, arith, Bool-cases, inl, inr,
}
use rust_rocks.Ffi.{Ptr, Outcome, done, M, pure, ◌>>=◌, ◌>>◌, IsHeap, SameCells, update, store}
use rust_rocks.Ffi.Object.{pinnable, status}
use rust_rocks.Engine.{Engine}
use rust_rocks.Error.{Result, Native, drop_status, save_error, from_ll}
use rust_rocks.Error.Codes.{status_code, code_to_int, code_of_int-code_to_int}
use rust_rocks.Error.{Code}
use rust_rocks.Db.Requests.{family}
use rust_rocks.Db.Read.{PinnableSlice, get, get_cf, deref, drop_slice, new, map_slice}

pub data Answer : Type 0 where
  found : Bytes → Answer
  failed : Code → Answer

module _ (E : Engine) where
  -- A caller that looks at what it got and lets it go.
  unfoldable pub look : Result PinnableSlice → M (Native E) Answer
  unfolding deref drop_slice status_code drop_status
  look (Result.ok s) = do bs ← deref E s; drop_slice E s; pure (found bs)
  look (Result.err e) = do c ← status_code E e; drop_status E e; pure (failed c)

  -- What the engine's answer means to the caller.
  abbrev pub answer_of : Code → E.Rep × Bytes → Answer
  answer_of c (s, bs) = if E.is_ok s then found bs else failed c

  -- The call returned `a`, left the database as it was, and leaked and lost nothing.
  abbrev pub Answered : Native E → Answer → Outcome (Native E) Answer → Type 0
  Answered w a out =
      (w' : Native E) × (out ≡ done a w') × (w'.state ≡ w.state) × SameCells w.heap w'.heap

  -- The native heap after a slice was made, pinned to `bs` and released.
  abbrev after_found : Bytes → Native E → Native E
  after_found bs w = record w {
    heap = record {
      next = w.heap.next + 1;
      cell =
          update
            (update (update w.heap.cell w.heap.next (some (pinnable []))) w.heap.next
              (some (pinnable bs)))
            w.heap.next none;
    };
  }

  -- The same with an error, which was released after the slice.
  abbrev after_failed : E.Rep → Bytes → Native E → Native E
  after_failed s bs w = record w {
    heap = record {
      next = w.heap.next + 1 + 1;
      cell =
          update
            (update
              (update
                (update (update w.heap.cell w.heap.next (some (pinnable []))) w.heap.next
                  (some (pinnable bs)))
                (w.heap.next + 1) (some (status s)))
              w.heap.next none)
            (w.heap.next + 1) none;
    };
  }

module _ (E : Engine) (w : Native E) (is : IsHeap w.heap) (o : E.ReadOptions) (key : Bytes) where
  abbrev asked : E.Cf → E.Rep × Bytes
  asked c = E.get o c key w.state

  after_found-SameCells : (bs : Bytes) → SameCells w.heap (after_found E bs w).heap
  after_found-SameCells bs p = ground (arith, is.unused p)

  after_failed-SameCells : (s : E.Rep) (bs : Bytes) → SameCells w.heap (after_failed E s bs w).heap
  after_failed-SameCells s bs p = ground (arith, is.unused p)

  -- The end of both lookups: the slice is at the first fresh address, and the engine has answered.
  abbrev finish : E.Cf → M (Native E) Answer
  finish c = do
    pinnable_val ← new E
    store pinnable_val.raw (pinnable (asked c).1)
    st ← save_error E (asked c).0
    r ← from_ll E st
    s ← map_slice E pinnable_val r
    look E s

  finish_found_lem :
      (c : E.Cf)
      → E.is_ok (asked c).0 ≡ true
      → finish c w ≡ done (found (asked c).1) (after_found E (asked c).1 w)
  unfolding new save_error from_ll map_slice look
  finish_found_lem c good = ground (arith, is.positive, good)

  finish_failed_lem :
      (c : E.Cf) (k : Code)
      → E.code (asked c).0 ≡ code_to_int k
      → E.is_ok (asked c).0 ≡ false
      → finish c w ≡ done (failed k) (after_failed E (asked c).0 (asked c).1 w)
  unfolding new save_error from_ll map_slice look
  finish_failed_lem c k h bad =
      ground (arith, is.positive, bad, h, E.is_ok_iff_code (asked c).0, code_of_int-code_to_int k)

  finish-Answered :
      (c : E.Cf) (k : Code)
      → E.code (asked c).0 ≡ code_to_int k
      → Answered E w (answer_of E k (asked c)) (finish c w)
  finish-Answered c k h = elim (Bool-cases (E.is_ok (asked c).0)) [
    | inl good ↦ rw good (
      after_found E (asked c).1 w,
      finish_found_lem c good,
      refl,
      after_found-SameCells (asked c).1,
    )
    | inr bad ↦ rw bad (
      after_failed E (asked c).0 (asked c).1 w,
      finish_failed_lem c k h bad,
      refl,
      after_failed-SameCells (asked c).0 (asked c).1,
    )
  ]

  get-finish : (get E o key >>= look E) w ≡ finish (E.default_column_family w.state) w
  unfolding get
  get-finish = ground arith

  -- Storing at the fresh address keeps what lies at the addresses in use.
  family-new :
      (p : Ptr) (c : E.Cf)
      → family E w.heap.cell p ≡ some c
      → family E (update w.heap.cell w.heap.next (some (pinnable []))) p ≡ some c
  family-new p c h = ground (arith, h, is.unused p)

  get_cf-finish :
      (p : Ptr) (c : E.Cf)
      → family E w.heap.cell p ≡ some c
      → (get_cf E o p key >>= look E) w ≡ finish c w
  unfolding get_cf
  get_cf-finish p c h = ground (arith, h, is.unused p, family-new p c h)

  -- From a heap that meets `IsHeap`, `get` answers what the engine answers for the default column
  -- family: the value, or an error that reads as `k`, if `k` is the code of the engine's status.
  -- Once the caller lets go of the slice or of the error, the native heap holds what it held
  -- before; the database is not changed.
  pub get-Answered :
      (k : Code)
      → E.code (asked (E.default_column_family w.state)).0 ≡ code_to_int k
      → Answered E w
          (answer_of E k (asked (E.default_column_family w.state)))
          ((get E o key >>= look E) w)
  get-Answered k h = rw get-finish (finish-Answered (E.default_column_family w.state) k h)

  -- From a heap that meets `IsHeap`, `get_cf` answers what the engine answers for the column
  -- family `c` that the handle at `p` leads to: the value, or an error that reads as `k`, if `k`
  -- is the code of the engine's status. Once the caller lets go of the slice or of the error, the
  -- native heap holds what it held before; the database is not changed.
  pub get_cf-Answered :
      (p : Ptr) (c : E.Cf) (k : Code)
      → family E w.heap.cell p ≡ some c
      → E.code (asked c).0 ≡ code_to_int k
      → Answered E w (answer_of E k (asked c)) ((get_cf E o p key >>= look E) w)
  get_cf-Answered p c k here h = rw (get_cf-finish p c here) (finish-Answered c k h)

  -- From a heap that meets `IsHeap`, `get` answers what the engine answers for the default column
  -- family, and `get_cf` what it answers for the column family `c` that the handle at `p` leads to:
  -- the value, or an error that reads as `k`, and as `k'`, if these are the codes of the engine's
  -- statuses. Once the caller lets go of the slice or of the error, the native heap holds what it
  -- held before; the database is not changed.
  pub lookup-Answered :
      (p : Ptr) (c : E.Cf) (k k' : Code)
      → family E w.heap.cell p ≡ some c
      → E.code (asked (E.default_column_family w.state)).0 ≡ code_to_int k
      → E.code (asked c).0 ≡ code_to_int k'
      → Answered E w
          (answer_of E k (asked (E.default_column_family w.state)))
          ((get E o key >>= look E) w)
        × Answered E w (answer_of E k' (asked c)) ((get_cf E o p key >>= look E) w)
  lookup-Answered p c k k' here h h' = (get-Answered k h, get_cf-Answered p c k' here h')
