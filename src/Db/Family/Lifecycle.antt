-- ===== src/Db/Family/Lifecycle.antt =====
-- The life of a column family object, from the call that makes it to its drop.
use rust_rocks.Common.{
  ◌+◌, ◌≡◌, refl, true, false, none, some, Bytes, if◌then◌else◌, arith, Bool-cases, inl, inr,
}
use rust_rocks.Ffi.{Outcome, done, fault, M, ◌>>=◌, IsHeap, SameCells, update}
use rust_rocks.Ffi.Object.{cf_handle, status, boxed}
use rust_rocks.Engine.{Engine, Call}
use rust_rocks.Error.{Result, Native, drop_status}
use rust_rocks.Db.Family.{
  no_nul, ColumnFamily, create_column_family, default_column_family, drop_family,
}

module _ (E : Engine) where
  -- A caller that lets go of what it got.
  unfoldable pub let_go : Result ColumnFamily → M (Native E) (Unit {0})
  unfolding drop_family drop_status
  let_go (Result.ok cf) = drop_family E cf
  let_go (Result.err s) = drop_status E s

  -- A column family is created and let go of.
  abbrev pub lifecycle : E.CfOptions → Bytes → M (Native E) (Unit {0})
  lifecycle o name = create_column_family E o name >>= let_go

  abbrev pub created : E.CfOptions → Bytes → Native E → E.Rep × E.Cf × E.Db
  created o name w = E.create_column_family o name w.state

  -- The status of destroying the handle right after it was created, and the database then.
  abbrev pub destroyed : E.CfOptions → Bytes → Native E → E.Rep × E.Db
  destroyed o name w =
      let (s, c, d) = created o name w in E.call (Call.destroy_column_family_handle c) d

  -- The call ended in the database `d`, and nothing was leaked or lost.
  abbrev pub Settled : Native E → E.Db → Outcome (Native E) (Unit {0}) → Type 0
  Settled w d out = (w' : Native E) × (out ≡ done tt w') × (w'.state ≡ d) × SameCells w.heap w'.heap

-- The world after a failed creation whose error was dropped.
abbrev after_failure : (E : Engine) → E.Rep → E.Db → Native E → Native E
after_failure E s d w = record {
  heap = record {
    next = w.heap.next + 1 + 1;
    cell =
        update
          (update
            (update (update w.heap.cell w.heap.next (some (boxed 0))) (w.heap.next + 1)
              (some (status s)))
            w.heap.next none)
          (w.heap.next + 1) none;
  };
  state = d;
}

-- The world after the creation and the destruction of the handle of `c`.
abbrev after_life : (E : Engine) → E.Cf → E.Db → Native E → Native E
after_life E c d w = record {
  heap = record {
    next = w.heap.next + 1;
    cell =
        update
          (update (update w.heap.cell w.heap.next (some (boxed 0))) w.heap.next
            (some (cf_handle c)))
          w.heap.next none;
  };
  state = d;
}

module _ (E : Engine) (o : E.CfOptions) (name : Bytes) (w : Native E) (is : IsHeap w.heap)
    (named : no_nul name ≡ true) where
  failure_lem :
      E.is_ok (created E o name w).0 ≡ false
      → lifecycle E o name w
        ≡ done tt (after_failure E (created E o name w).0 (created E o name w).2 w)
  unfolding create_column_family let_go
  failure_lem bad = ground (arith, named, is.positive, bad, E.is_ok_iff_code (created E o name w).0)

  life_lem :
      E.is_ok (created E o name w).0 ≡ true
      → E.is_ok (destroyed E o name w).0 ≡ true
      → lifecycle E o name w
        ≡ done tt (after_life E (created E o name w).1 (destroyed E o name w).1 w)
  unfolding create_column_family let_go
  life_lem good fine = ground (arith, named, is.positive, good, fine)

  after_failure-SameCells : (s : E.Rep) (d : E.Db) → SameCells w.heap (after_failure E s d w).heap
  after_failure-SameCells s d p =
      ground (arith, is.unused w.heap.next, is.unused (w.heap.next + 1), is.unused p)

  after_life-SameCells : (c : E.Cf) (d : E.Db) → SameCells w.heap (after_life E c d w).heap
  after_life-SameCells c d p = ground (arith, is.unused w.heap.next, is.unused p)

  -- From a heap that meets `IsHeap`, creating a column family of a name without a NUL and letting go
  -- of the result leaves no native object behind, whether or not the engine creates it, if the
  -- engine does not refuse to destroy the handle it made. The database is then as the engine left it: after the failed
  -- creation, or after the destruction.
  pub create_column_family-Settled :
      (E.is_ok (created E o name w).0 ≡ true → E.is_ok (destroyed E o name w).0 ≡ true)
      → Settled E w
          (if E.is_ok (created E o name w).0
            then (destroyed E o name w).1
            else (created E o name w).2)
          (lifecycle E o name w)
  create_column_family-Settled fine = elim (Bool-cases (E.is_ok (created E o name w).0)) [
    | inl good ↦ rw good (
      after_life E (created E o name w).1 (destroyed E o name w).1 w,
      life_lem good (fine good),
      refl,
      after_life-SameCells (created E o name w).1 (destroyed E o name w).1,
    )
    | inr bad ↦ rw bad (
      after_failure E (created E o name w).0 (created E o name w).2 w,
      failure_lem bad,
      refl,
      after_failure-SameCells (created E o name w).0 (created E o name w).2,
    )
  ]

  -- From a heap that meets `IsHeap`, if the name has no NUL and the engine creates a column family
  -- but reports an error
  -- when it destroys the handle, the drop of the column family releases the handle twice: the
  -- assertion panics before the pointer is cleared, and unwinding drops the handle that the glue
  -- has deleted.
  pub drop_family-double_free :
      E.is_ok (created E o name w).0 ≡ true
      → E.is_ok (destroyed E o name w).0 ≡ false
      → lifecycle E o name w ≡ fault
  unfolding create_column_family let_go
  drop_family-double_free good bad =
      ground (arith, named, is.positive, good, bad, E.is_ok_iff_code (destroyed E o name w).0)

-- From a heap that meets `IsHeap`, taking the default column family and letting go of it asks
-- nothing of the engine and leaves no native object behind.
pub default_column_family-Settled :
    (E : Engine) (w : Native E)
    → IsHeap w.heap
    → Settled E w w.state ((default_column_family E >>= drop_family E) w)
unfolding default_column_family drop_family
default_column_family-Settled E w is = (
  record w {
    heap = record {
      next = w.heap.next + 1;
      cell =
          update
            (update w.heap.cell w.heap.next (some (cf_handle (E.default_column_family w.state))))
            w.heap.next none;
    };
  },
  ground (arith, is.positive),
  refl,
  λ p. ground (arith, is.unused p),
)
