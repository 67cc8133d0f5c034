-- ===== src/Db/Dynamic/Default.antt =====
-- `DBRef::set_options`, which sets options of the default column family through a temporary.
use rust_rocks.Common.{
  ◌+◌, ◌≡◌, refl, true, false, some, none, arith, Bool-cases, inl, inr, [], subst,
}
use rust_rocks.Ffi.{done, ◌>>=◌, update, IsHeap}
use rust_rocks.Ffi.Object.{cf_handle, status}
use rust_rocks.Engine.{Engine, Call}
use rust_rocks.Error.{Native, drop_result, save_error, from_ll}
use rust_rocks.Db.Glue.{load_cf, call_and_save, DbCall}
use rust_rocks.Db.Family.{default_column_family, drop_family}
use rust_rocks.Db.Family.Lifecycle.{Settled}
use rust_rocks.Db.Dynamic.{Settings, set_options, set_options_cf, rocks_db_set_options_cf, build}
use rust_rocks.Db.Dynamic.Built.{Distinct, build-Distinct}

module _ (E : Engine) (w : Native E) (is : IsHeap w.heap) (kvs : Settings) where
  abbrev asked : Settings → DbCall E
  asked m = Call.set_options (E.default_column_family w.state) m

  -- The world at the end, if the engine accepted the options and if not.
  abbrev after_success : Settings → Native E
  after_success m = record {
    heap = record {
      next = w.heap.next + 1;
      cell =
          update
            (update w.heap.cell w.heap.next (some (cf_handle (E.default_column_family w.state))))
            w.heap.next none;
    };
    state = (E.call (asked m) w.state).1;
  }

  abbrev after_failure : Settings → Native E
  after_failure m = record {
    heap = record {
      next = w.heap.next + 1 + 1;
      cell =
          update
            (update
              (update
                (update w.heap.cell w.heap.next
                  (some (cf_handle (E.default_column_family w.state))))
                (w.heap.next + 1) (some (status (E.call (asked m) w.state).0)))
              w.heap.next none)
            (w.heap.next + 1) none;
    };
    state = (E.call (asked m) w.state).1;
  }

  success_lem :
      E.is_ok (E.call (asked (build [] kvs)) w.state).0 ≡ true
      → (set_options E kvs >>= drop_result E) w ≡ done tt (after_success (build [] kvs))
  unfolding set_options set_options_cf rocks_db_set_options_cf default_column_family load_cf
      call_and_save save_error from_ll drop_family drop_result
  success_lem good = ground (arith, is.positive, good)

  failure_lem :
      E.is_ok (E.call (asked (build [] kvs)) w.state).0 ≡ false
      → (set_options E kvs >>= drop_result E) w ≡ done tt (after_failure (build [] kvs))
  unfolding set_options set_options_cf rocks_db_set_options_cf default_column_family load_cf
      call_and_save save_error from_ll drop_family drop_result
  failure_lem bad =
      ground (arith, is.positive, bad, E.is_ok_iff_code (E.call (asked (build [] kvs)) w.state).0)

  built-Settled :
      Settled E w
        (E.call (asked (build [] kvs)) w.state).1
        ((set_options E kvs >>= drop_result E) w)
  built-Settled = elim (Bool-cases (E.is_ok (E.call (asked (build [] kvs)) w.state).0)) [
    | inl good ↦
        (after_success (build [] kvs), success_lem good, refl, λ p. ground (arith, is.unused p))
    | inr bad ↦
        (after_failure (build [] kvs), failure_lem bad, refl, λ p. ground (arith, is.unused p))
  ]

  -- From a heap that meets `IsHeap`, `set_options` with distinct keys asks the engine once, to set
  -- exactly these options of the default column family. When the result is dropped, the native
  -- heap holds what it held before.
  pub set_options-Settled :
      Distinct kvs
      → Settled E w (E.call (asked kvs) w.state).1 ((set_options E kvs >>= drop_result E) w)
  set_options-Settled distinct =
      subst
        (λ m. Settled E w (E.call (asked m) w.state).1 ((set_options E kvs >>= drop_result E) w))
        (build-Distinct kvs distinct) built-Settled
