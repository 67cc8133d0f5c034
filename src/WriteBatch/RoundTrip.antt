-- ===== src/WriteBatch/RoundTrip.antt =====
-- Reading a batch back.
use rust_rocks.Common.{
  ◌+◌, ◌≡◌, refl, true, false, none, some, List, [], ◌∷◌, ◌++◌, ◌==◌, arith, map, append_assoc,
  append-nil, ◌∙◌, sym,
}
use rust_rocks.Ffi.{Ptr, null, Outcome, done, fault, IsHeap, SameCells, update}
use rust_rocks.Ffi.Object.{Object, batch, boxed}
use rust_rocks.Engine.{Engine}
use rust_rocks.Error.{Native, Result, drop_result, save_error, from_ll}
use rust_rocks.Db.Requests.{family}
use rust_rocks.Db.Family.{is_ok}
use rust_rocks.WriteBatch.{Batches, Callback, feed}
use rust_rocks.WriteBatch.Ops
use rust_rocks.WriteBatch.Raw.{load_batch, drop_batch}
use rust_rocks.WriteBatch.Handler.{
  WriteBatchHandler, WriteBatchIteratorHandler, collect, iterator_handler, iterate, push, visit,
  goes_on, iterate_batch, rust_write_batch_handler,
}
use rust_rocks.WriteBatch.Script.{Step, Held, entry_of, replay, round_trip}
use rust_rocks.WriteBatch.Holding.{Holding, run-Reaches}

collect-push : (c : Callback) (h : WriteBatchIteratorHandler) → collect c h ≡ push (entry_of c) h
unfolding collect
collect-push (Callback.put_cf id k v) h = refl
collect-push (Callback.delete_cf id k) h = refl
collect-push (Callback.single_delete_cf id k) h = refl
collect-push (Callback.delete_range_cf id b e) h = refl
collect-push (Callback.merge_cf id k v) h = refl
collect-push (Callback.log_data blob) h = refl
collect-push Callback.mark_begin_prepare h = refl
collect-push (Callback.mark_end_prepare xid) h = refl
collect-push (Callback.mark_rollback xid) h = refl
collect-push (Callback.mark_commit xid) h = refl

-- The collecting handler appends the entry of each callback.
entries-feed :
    (cs : List Callback) (h : WriteBatchIteratorHandler)
    → (feed collect (λ _. true) cs h).entries ≡ h.entries ++ map entry_of cs
entries-feed [] h = sym (append-nil h.entries)
entries-feed (c ∷ cs) h = rw (collect-push c h) (
    entries-feed cs (push (entry_of c) h)
    ∙ append_assoc h.entries (entry_of c ∷ []) (map entry_of cs))

module _ (E : Engine) (B : Batches E) {S : Type 0} (H : WriteBatchHandler S) where
  -- As long as the box of the handler is there, an iteration through the C callbacks is an
  -- iteration with the methods of the trait.
  feed-visit :
      (h : Ptr) (o : Object E.Rep E.Cf E.Snap E.Batch) (w : Native E)
      → (h == null) ≡ false
      → w.heap.cell h ≡ some o
      → (cs : List Callback) (s : S)
      → feed (visit E B H h) (goes_on E B H) cs (done s w) ≡ done (feed H.on H.will_continue cs s) w
  unfolding rust_write_batch_handler
  feed-visit h o w live there [] s = refl
  feed-visit h o w live there (c ∷ cs) s =
      ground (arith, live, there, feed-visit h o w live there cs (H.on c s))

  iterate_batch_lem :
      (h : Ptr) (o : Object E.Rep E.Cf E.Snap E.Batch) (w : Native E) (b : E.Batch) (s : S)
      → (h == null) ≡ false
      → w.heap.cell h ≡ some o
      → iterate_batch E B H b h s w
        ≡ done
            (
              (B.iterate (visit E B H h) (goes_on E B H) b (done s w)).0,
              feed H.on H.will_continue (B.contents b) s,
            )
            w
  unfolding iterate_batch
  iterate_batch_lem h o w b s live there = ground (
    arith,
    B.iterate-feed (visit E B H h) (goes_on E B H) b (done s w),
    feed-visit h o w live there (B.contents b) s,
  )

module _ (E : Engine) (B : Batches E) where
  always_goes_on :
      (t : Outcome (Native E) WriteBatchIteratorHandler) → goes_on E B iterator_handler t ≡ true
  always_goes_on (done s w) = refl
  always_goes_on (Outcome.panic w) = refl
  always_goes_on fault = refl

  -- The world during the iteration: the box of the handler, and the glue's handler around it.
  abbrev during : Native E → Native E
  during w = record w {
    heap = record {
      next = w.heap.next + 1 + 1;
      cell =
          update (update w.heap.cell w.heap.next (some (boxed 0))) (w.heap.next + 1)
            (some (boxed w.heap.next));
    };
  }

  -- The world after the iteration.
  abbrev iterated : Native E → Native E
  iterated w = record w {
    heap = record {
      next = w.heap.next + 1 + 1;
      cell = update (update (during w).heap.cell w.heap.next none) (w.heap.next + 1) none;
    };
  }

  iterate_lem :
      (w : Native E) (p : Ptr) (b : E.Batch) (h : WriteBatchIteratorHandler)
      → IsHeap w.heap
      → w.heap.cell p ≡ some (batch b)
      → iterate E B iterator_handler (record { raw = p }) h w
        ≡ done (Result.ok tt, feed collect (λ _. true) (B.contents b) h) (iterated w)
  unfolding iterate load_batch save_error from_ll
  iterate_lem w p b h is there =
      let s =
        (B.iterate (visit E B iterator_handler w.heap.next) (goes_on E B iterator_handler) b
          (done h (during w))).0 in
      ground (
        arith,
        there,
        is.unused p,
        is.positive,
        E.is_ok_iff_code s,
        B.code-iterate (visit E B iterator_handler w.heap.next) (goes_on E B iterator_handler) b
            (done h (during w)) always_goes_on,
        iterate_batch_lem E B iterator_handler w.heap.next (boxed 0) (during w) b h
            (ground (arith, is.positive)) (ground arith),
      )

-- From a heap that meets `IsHeap`, if every step names only handles that are there, and only keys
-- and values that a batch can hold, then iterating over the built batch succeeds and hands the
-- caller an entry for each update in the order of the calls, less what was cleared or rolled back
-- to a save point. In the end the native heap holds what it held before, and the database is not
-- touched.
pub round_trip-replay :
    (E : Engine) (B : Batches E) (w : Native E) (ss : List Step) (h : Held)
    → IsHeap w.heap
    → replay E B (family E w.heap.cell) ss ([], []) ≡ some h
    → ((w' : Native E) × (round_trip E B ss w ≡ done (true, map entry_of h.0) w')
        × SameCells w.heap w'.heap
        × (w'.state ≡ w.state))
unfolding round_trip Ops.new drop_batch is_ok drop_result
round_trip-replay E B w ss h is e =
    let p = w.heap.next in
    let fresh = is.unused p (omega arith) in
    let start : Native E = record w {
      heap = record { next = p + 1; cell = update w.heap.cell p (some (batch B.create)) };
    } in
    let hold : Holding E B w p ([], []) start = record {
      content = B.create;
      here = ground arith;
      others = λ q ne. ground (arith, ne);
      heap = record { positive = omega arith; unused = λ q le. ground (arith, is.unused q) };
      state = refl;
      contents = B.contents-create;
      saved = B.saved-create;
    } in
    let (w1, o, hold1) = run-Reaches E B w p fresh ss ([], []) h start hold e in
    (
      record (iterated E B w1) {
        heap = record (iterated E B w1).heap { cell = update (iterated E B w1).heap.cell p none };
      },
      ground (
        arith,
        o,
        is.positive,
        iterate_lem E B w1 p hold1.content (record { entries = [] }) hold1.heap hold1.here,
        entries-feed (B.contents hold1.content) (record { entries = [] }),
        hold1.contents,
        hold1.here,
        hold1.heap.unused p,
      ),
      λ q. ground (arith, hold1.others q, fresh, hold1.heap.unused q),
      hold1.state,
    )
