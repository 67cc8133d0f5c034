-- ===== src/Error/Ownership.antt =====
-- Who owns a native status: a failed call hands one to the caller, who reads it and releases it.
use rust_rocks.Common.{
  ◌+◌, ◌≡◌, refl, ◌≢◌, false, Option, none, some, ◌==◌, if◌then◌else◌, arith, Bool-cases, inl, inr,
  Bytes,
}
use rust_rocks.Ffi.{
  Ptr, null, Outcome, done, fault, M, pure, ◌>>=◌, ◌>>◌, update, IsHeap, SameCells,
}
use rust_rocks.Ffi.Object.{Object, status}
use rust_rocks.Ffi.Laws.{IsHeap-alloc, IsHeap-free, SameCells-alloc_free}
use rust_rocks.Engine.{Engine}
use rust_rocks.Error.{
  Code, SubCode, Status, Result, Native, save_error, from_ll, drop_status, drop_result, clone,
  load_status,
}
use rust_rocks.Error.Codes.{
  code_to_int, sub_code_to_int, status_code, status_subcode, code_of_int-code_to_int,
  sub_code_of_int-sub_code_to_int,
}
use rust_rocks.Error.Message.{with_message}

-- How every fallible call of the crate ends: the glue saves the status, Rust takes it over.
unfoldable pub report : (E : Engine) → E.Rep → M (Native E) (Result (Unit {0}))
unfolding save_error from_ll
report E s = save_error E s >>= from_ll E

-- The world after an allocation.
abbrev pub after_alloc : (E : Engine) → Object E.Rep E.Cf E.Snap E.Batch → Native E → Native E
after_alloc E o w = record w {
  heap = record { next = w.heap.next + 1; cell = update w.heap.cell w.heap.next (some o) };
}

-- The world after the release of an object.
abbrev pub after_free : (E : Engine) → Ptr → Native E → Native E
after_free E p w = record w { heap = record w.heap { cell = update w.heap.cell p none } }

-- Between the two worlds no native object was leaked and none was lost.
pub record Balanced (E : Engine) (w w' : Native E) : Type 0 where
  pub cells : SameCells w.heap w'.heap
  pub heap : IsHeap w'.heap

abbrev pub report_of : (E : Engine) → E.Rep → Native E → Outcome (Native E) (Result (Unit {0}))
report_of E s w =
    if E.is_ok s
    then done (Result.ok tt) w
    else done (Result.err (record { raw = w.heap.next })) (after_alloc E (status s) w)

-- The world after the report of a status, and after the release of what was reported.
abbrev pub after_report : (E : Engine) → E.Rep → Native E → Native E
after_report E s w = if E.is_ok s then w else after_free E w.heap.next (after_alloc E (status s) w)

module _ (E : Engine) (w : Native E) (is : IsHeap w.heap) where
  pub Balanced-refl : Balanced E w w
  Balanced-refl = record { cells = λ p. refl; heap = is }

  pub Balanced-alloc_free :
      (o : Object E.Rep E.Cf E.Snap E.Batch)
      → Balanced E w (after_free E w.heap.next (after_alloc E o w))
  Balanced-alloc_free o = record {
    cells = SameCells-alloc_free is o;
    heap = IsHeap-free (IsHeap-alloc is o) w.heap.next;
  }

  fresh_is_not_null : (w.heap.next == null) ≡ false
  fresh_is_not_null = ground (arith, is.positive)

  pub report_lem : (s : E.Rep) → report E s w ≡ report_of E s w
  unfolding report
  report_lem s = elim (Bool-cases (E.is_ok s)) [
    | inl good ↦ rw good
    | inr bad ↦ ground (arith, fresh_is_not_null, E.is_ok_iff_code s)
  ]

  pub Balanced-after_report : (s : E.Rep) → Balanced E w (after_report E s w)
  Balanced-after_report s = elim (Bool-cases (E.is_ok s)) [
    | inl good ↦ rw good Balanced-refl
    | inr bad ↦ rw bad (Balanced-alloc_free (status s))
  ]

-- A caller that looks at the error, if there is one, and lets the result go.
unfoldable pub inspect : (E : Engine) → Result (Unit {0}) → M (Native E) (Option (Code × SubCode))
unfolding status_code status_subcode drop_status
inspect E (Result.ok a) = pure none
inspect E (Result.err s) = do
  c ← status_code E s
  b ← status_subcode E s
  drop_status E s
  pure (some (c, b))

module _ (E : Engine) (w : Native E) (is : IsHeap w.heap) (s : E.Rep) where
  abbrev reported : Status
  reported = record { raw = w.heap.next }

  status_code-alloc :
      (c : Code)
      → E.code s ≡ code_to_int c
      → status_code E reported (after_alloc E (status s) w) ≡ done c (after_alloc E (status s) w)
  unfolding status_code load_status
  status_code-alloc c h = ground (arith, code_of_int-code_to_int c)

  status_subcode-alloc :
      (c : SubCode)
      → E.subcode s ≡ sub_code_to_int c
      → status_subcode E reported (after_alloc E (status s) w) ≡ done c (after_alloc E (status s) w)
  unfolding status_subcode load_status
  status_subcode-alloc c h = ground (arith, sub_code_of_int-sub_code_to_int c)

  drop_status-alloc :
      drop_status E reported (after_alloc E (status s) w)
      ≡ done tt (after_free E w.heap.next (after_alloc E (status s) w))
  unfolding drop_status
  drop_status-alloc = ground (arith, fresh_is_not_null E w is)

  inspect-report_lem :
      (c : Code) (b : SubCode)
      → E.code s ≡ code_to_int c
      → E.subcode s ≡ sub_code_to_int b
      → (report E s >>= inspect E) w
        ≡ done (if E.is_ok s then none else some (c, b)) (after_report E s w)
  unfolding inspect
  inspect-report_lem c b hc hb = rw (report_lem E w is s) (elim (Bool-cases (E.is_ok s)) [
    | inl good ↦ rw good
    | inr bad ↦ rw (bad, status_code-alloc c hc, status_subcode-alloc b hb, drop_status-alloc)
  ])

  pub drop_result-report_lem : (report E s >>= drop_result E) w ≡ done tt (after_report E s w)
  unfolding drop_result
  drop_result-report_lem =
      rw (report_lem E w is s) (elim (Bool-cases (E.is_ok s)) [
        | inl good ↦ rw good
        | inr bad ↦ rw (bad, drop_status-alloc)
      ])

-- What `inspect` leaves behind when the status came with the world `w`.
abbrev pub Inspected :
    (E : Engine)
    → Native E
    → Option (Code × SubCode)
    → Outcome (Native E) (Option (Code × SubCode))
    → Type 0
Inspected E w seen out =
    (w' : Native E) × (out ≡ done seen w') × Balanced E w w' × (w'.state ≡ w.state)

-- From a heap that meets `IsHeap`, a status with the code of `c` and the subcode of `b` that the
-- glue saves and `from_ll` takes over is `Ok` exactly if the status is ok, and otherwise an error
-- that reads as `c` and `b`. Once the caller drops the error, the native heap holds what it held
-- before.
pub inspect-report :
    (E : Engine) (w : Native E) (s : E.Rep) (c : Code) (b : SubCode)
    → IsHeap w.heap
    → E.code s ≡ code_to_int c
    → E.subcode s ≡ sub_code_to_int b
    → Inspected E w (if E.is_ok s then none else some (c, b)) ((report E s >>= inspect E) w)
inspect-report E w s c b is hc hb = (
  after_report E s w,
  inspect-report_lem E w is s c b hc hb,
  Balanced-after_report E w is s,
  elim (Bool-cases (E.is_ok s)) [ inl good ↦ rw good | inr bad ↦ rw bad ],
)

module _ (E : Engine) (msg : Bytes) where
  message_code : E.code (E.invalid_argument msg) ≡ code_to_int Code.invalid_argument
  unfolding code_to_int
  message_code = E.code-invalid_argument msg

  message_sub_code : E.subcode (E.invalid_argument msg) ≡ sub_code_to_int SubCode.none
  unfolding sub_code_to_int
  message_sub_code = E.subcode-invalid_argument msg

  abbrev pub inspect_message : M (Native E) (Option (Code × SubCode))
  inspect_message = with_message E msg >>= λ s. inspect E (Result.err s)

  inspect-with_message_lem :
      (w : Native E)
      → IsHeap w.heap
      → inspect_message w
        ≡ done
            (some (Code.invalid_argument, SubCode.none))
            (after_free E w.heap.next (after_alloc E (status (E.invalid_argument msg)) w))
  unfolding with_message inspect
  inspect-with_message_lem w is = rw (
    status_code-alloc E w is (E.invalid_argument msg) Code.invalid_argument message_code,
    status_subcode-alloc E w is (E.invalid_argument msg) SubCode.none message_sub_code,
    drop_status-alloc E w is (E.invalid_argument msg),
  )

-- From a heap that meets `IsHeap`, `Status::with_message` makes an error that reads as
-- `InvalidArgument` with no subcode, for every message, and its drop gives the native status back.
pub inspect-with_message :
    (E : Engine) (w : Native E) (msg : Bytes)
    → IsHeap w.heap
    → Inspected E w (some (Code.invalid_argument, SubCode.none)) (inspect_message E msg w)
inspect-with_message E w msg is = (
  after_free E w.heap.next (after_alloc E (status (E.invalid_argument msg)) w),
  inspect-with_message_lem E msg w is,
  Balanced-alloc_free E w is (status (E.invalid_argument msg)),
  refl,
)

-- Dropping a status whose pointer is not null and then its clone is a double free, in every world:
-- the derived `Clone` of `Status` copies the pointer that `Drop` releases.
pub drop-clone-fault :
    (E : Engine) (w : Native E) (s : Status)
    → s.raw ≢ null
    → (drop_status E s >> drop_status E (clone s)) w ≡ fault
unfolding drop_status clone
drop-clone-fault E w s live = ground arith
