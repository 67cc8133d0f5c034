-- ===== src/WriteBatch/Handler.antt =====
-- Iteration over a batch: the trait `WriteBatchHandler`, the C callbacks of `write_batch::c`, and
-- `WriteBatchIteratorHandler`, which collects the entries.
use rust_rocks.Common.{ℕ, Bool, true, List, [], ◌∷◌, ◌++◌, Bytes, ◌==◌, not}
use rust_rocks.Ffi.{
  Ptr, null, Outcome, done, panic, fault, M, pure, ◌>>=◌, ◌>>◌, alloc, load, free, assert, and_then,
}
use rust_rocks.Ffi.Object.{boxed}
use rust_rocks.Engine.{Engine}
use rust_rocks.Error.{Native, Result, save_error, from_ll}
use rust_rocks.WriteBatch.{Batches, Callback}
use rust_rocks.WriteBatch.Raw.{WriteBatch, load_batch}

-- The trait, for an implementor whose state is `S`: what a callback does to the state, and
-- `will_continue`, which is taken to leave the state alone.
pub record WriteBatchHandler (S : Type 0) : Type 0 where
  pub on : Callback → S → S
  pub will_continue : S → Bool

pub data WriteBatchEntry : Type 0 where
  put : ℕ → Bytes → Bytes → WriteBatchEntry
  delete : ℕ → Bytes → WriteBatchEntry
  single_delete : ℕ → Bytes → WriteBatchEntry
  delete_range : ℕ → Bytes → Bytes → WriteBatchEntry
  merge : ℕ → Bytes → Bytes → WriteBatchEntry
  log_data : Bytes → WriteBatchEntry
  begin_prepare_mark : WriteBatchEntry
  end_prepare_mark rollback_mark commit_mark : Bytes → WriteBatchEntry

pub record WriteBatchIteratorHandler : Type 0 where
  pub entries : List WriteBatchEntry

-- `self.entries.push(e)`
abbrev pub push : WriteBatchEntry → WriteBatchIteratorHandler → WriteBatchIteratorHandler
push e h = record h { entries = h.entries ++ (e ∷ []) }

-- `impl WriteBatchHandler for WriteBatchIteratorHandler`
unfoldable pub collect : Callback → WriteBatchIteratorHandler → WriteBatchIteratorHandler
collect (Callback.put_cf id k v) h = push (WriteBatchEntry.put id k v) h
collect (Callback.delete_cf id k) h = push (WriteBatchEntry.delete id k) h
collect (Callback.single_delete_cf id k) h = push (WriteBatchEntry.single_delete id k) h
collect (Callback.delete_range_cf id b e) h = push (WriteBatchEntry.delete_range id b e) h
collect (Callback.merge_cf id k v) h = push (WriteBatchEntry.merge id k v) h
collect (Callback.log_data blob) h = push (WriteBatchEntry.log_data blob) h
collect Callback.mark_begin_prepare h = push WriteBatchEntry.begin_prepare_mark h
collect (Callback.mark_end_prepare xid) h = push (WriteBatchEntry.end_prepare_mark xid) h
collect (Callback.mark_rollback xid) h = push (WriteBatchEntry.rollback_mark xid) h
collect (Callback.mark_commit xid) h = push (WriteBatchEntry.commit_mark xid) h

abbrev pub iterator_handler : WriteBatchHandler WriteBatchIteratorHandler
iterator_handler = record { on = collect; will_continue = λ h. true }

module _ (E : Engine) (B : Batches E) {S : Type 0} (H : WriteBatchHandler S) where
  -- The functions `rust_write_batch_handler_*`, each of which calls its method of the trait object.
  unfoldable pub rust_write_batch_handler : Ptr → Callback → S → M (Native E) S
  rust_write_batch_handler h c s = do assert (not (h == null)); handler ← load h; pure (H.on c s)

  unfoldable pub rust_write_batch_handler_drop : Ptr → M (Native E) (Unit {0})
  rust_write_batch_handler_drop h = do assert (not (h == null)); free h

  abbrev pub visit : Ptr → Callback → Outcome (Native E) S → Outcome (Native E) S
  unfolding rust_write_batch_handler
  visit h c out = and_then out (rust_write_batch_handler h c)

  -- An iteration that has failed goes nowhere.
  abbrev pub goes_on : Outcome (Native E) S → Bool
  goes_on (done s w) = H.will_continue s
  goes_on (panic w) = true
  goes_on fault = true

  -- `b->rep->Iterate(handler)`
  unfoldable pub iterate_batch : E.Batch → Ptr → S → M (Native E) (E.Rep × S)
  iterate_batch b h s w =
      let (st, out) = B.iterate (visit h) goes_on b (done s w) in and_then out λ s'. pure (st, s')

  -- the pointer written to `*status`, and the handler's state
  unfoldable pub rocks_writebatch_iterate : Ptr → Ptr → S → M (Native E) (Ptr × S)
  unfolding load_batch iterate_batch rust_write_batch_handler_drop save_error
  rocks_writebatch_iterate p trait_obj s = do
    handler ← alloc (boxed trait_obj)
    b ← load_batch E p
    (st, s') ← iterate_batch b trait_obj s
    -- `delete handler`: its destructor, then its memory
    rust_write_batch_handler_drop trait_obj
    free handler
    status ← save_error E st
    pure (status, s')

  unfoldable pub iterate : WriteBatch → S → M (Native E) (Result (Unit {0}) × S)
  unfolding rocks_writebatch_iterate from_ll
  iterate b s = do
    raw_ptr ← alloc (boxed 0)
    (status, s') ← rocks_writebatch_iterate b.raw raw_ptr s
    r ← from_ll E status
    pure (r, s')
