-- ===== src/WriteBatch/Script.antt =====
-- A batch that is built, read back and dropped: what the iteration hands to the caller is what the
-- caller put in, less what was cleared or rolled back.
use rust_rocks.Common.{Bool, Option, none, some, List, [], ◌∷◌, ◌++◌, if◌then◌else◌}
use rust_rocks.Ffi.{Ptr, M, pure, ◌>>=◌, ◌>>◌}
use rust_rocks.Engine.{Engine}
use rust_rocks.Error.{Native, drop_result}
use rust_rocks.Db.Family.{is_ok}
use rust_rocks.WriteBatch.{Batches, Update, Callback, callback_of}
use rust_rocks.WriteBatch.Ops
use rust_rocks.WriteBatch.Raw.{WriteBatch, drop_batch}
use rust_rocks.WriteBatch.Handler.{WriteBatchEntry, iterator_handler, iterate}

-- What a client does to a batch. A column family is named by the pointer of its handle.
pub data Step : Type 0 where
  add : Update Ptr → Step
  clear : Step
  set_save_point : Step
  rollback_to_save_point : Step

-- The entry that a callback of the handler leaves.
abbrev pub entry_of : Callback → WriteBatchEntry
entry_of (Callback.put_cf id k v) = WriteBatchEntry.put id k v
entry_of (Callback.delete_cf id k) = WriteBatchEntry.delete id k
entry_of (Callback.single_delete_cf id k) = WriteBatchEntry.single_delete id k
entry_of (Callback.delete_range_cf id b e) = WriteBatchEntry.delete_range id b e
entry_of (Callback.merge_cf id k v) = WriteBatchEntry.merge id k v
entry_of (Callback.log_data blob) = WriteBatchEntry.log_data blob
entry_of Callback.mark_begin_prepare = WriteBatchEntry.begin_prepare_mark
entry_of (Callback.mark_end_prepare xid) = WriteBatchEntry.end_prepare_mark xid
entry_of (Callback.mark_rollback xid) = WriteBatchEntry.rollback_mark xid
entry_of (Callback.mark_commit xid) = WriteBatchEntry.commit_mark xid

abbrev pub handled : {A B : Type 0} → Option A → (A → Update B) → Option (Update B)
handled none f = none
handled (some a) f = some (f a)

-- The update with its column family looked up; none if a handle is not there.
abbrev pub resolve : {C : Type 0} → (Ptr → Option C) → Update Ptr → Option (Update C)
resolve f (Update.put k v) = some (Update.put k v)
resolve f (Update.put_cf p k v) = handled (f p) λ c. Update.put_cf c k v
resolve f (Update.delete k) = some (Update.delete k)
resolve f (Update.delete_cf p k) = handled (f p) λ c. Update.delete_cf c k
resolve f (Update.single_delete k) = some (Update.single_delete k)
resolve f (Update.single_delete_cf p k) = handled (f p) λ c. Update.single_delete_cf c k
resolve f (Update.delete_range b e) = some (Update.delete_range b e)
resolve f (Update.delete_range_cf p b e) = handled (f p) λ c. Update.delete_range_cf c b e
resolve f (Update.merge k v) = some (Update.merge k v)
resolve f (Update.merge_cf p k v) = handled (f p) λ c. Update.merge_cf c k v
resolve f (Update.put_log_data blob) = some (Update.put_log_data blob)

-- What a batch holds: its callbacks, and those at each save point, the latest first.
abbrev pub Held : Type 0
Held = List Callback × List (List Callback)

abbrev pub rolled_back : Held → Held
rolled_back (cs, []) = (cs, [])
rolled_back (cs, c ∷ sv) = (c, sv)

module _ (E : Engine) (B : Batches E) where
  unfoldable pub apply : WriteBatch → Update Ptr → M (Native E) WriteBatch
  apply b (Update.put k v) = Ops.put E B b k v
  apply b (Update.put_cf p k v) = Ops.put_cf E B b p k v
  apply b (Update.delete k) = Ops.delete E B b k
  apply b (Update.delete_cf p k) = Ops.delete_cf E B b p k
  apply b (Update.single_delete k) = Ops.single_delete E B b k
  apply b (Update.single_delete_cf p k) = Ops.single_delete_cf E B b p k
  apply b (Update.delete_range s e) = Ops.delete_range E B b s e
  apply b (Update.delete_range_cf p s e) = Ops.delete_range_cf E B b p s e
  apply b (Update.merge k v) = Ops.merge E B b k v
  apply b (Update.merge_cf p k v) = Ops.merge_cf E B b p k v
  apply b (Update.put_log_data blob) = Ops.put_log_data E B b blob

  unfoldable pub step : WriteBatch → Step → M (Native E) (Unit {0})
  unfolding apply
  step b (add u) = apply b u >> pure tt
  step b clear = Ops.clear E B b >> pure tt
  step b set_save_point = Ops.set_save_point E B b >> pure tt
  step b rollback_to_save_point = do r ← Ops.rollback_to_save_point E B b; drop_result E r

  unfoldable pub run : List Step → WriteBatch → M (Native E) (Unit {0})
  unfolding step
  run [] b = pure tt
  run (s ∷ ss) b = step b s >> run ss b

  abbrev pub added : Option (Update E.Cf) → Held → Option Held
  added none h = none
  added (some u) (cs, sv) = if B.fits u then some (cs ++ (callback_of E.cf_id u ∷ []), sv) else none

  -- What a step makes of what the batch holds; none if it names a handle that is not there or has
  -- a key or value that a batch cannot hold.
  abbrev pub stepped : (Ptr → Option E.Cf) → Step → Held → Option Held
  stepped f (add u) h = added (resolve f u) h
  stepped f clear h = some ([], [])
  stepped f set_save_point (cs, sv) = some (cs, cs ∷ sv)
  stepped f rollback_to_save_point h = some (rolled_back h)

  abbrev pub then_held : Option Held → (Held → Option Held) → Option Held
  then_held none k = none
  then_held (some h) k = k h

  abbrev pub replay : (Ptr → Option E.Cf) → List Step → Held → Option Held
  replay f [] h = some h
  replay f (s ∷ ss) h = then_held (stepped f s h) (replay f ss)

  -- Build a batch, read it back, and let everything go.
  unfoldable pub round_trip : List Step → M (Native E) (Bool × List WriteBatchEntry)
  unfolding run
  round_trip ss = do
    b ← Ops.new E B
    run ss b
    (r, h) ← iterate E B iterator_handler b (record { entries = [] })
    drop_result E r
    drop_batch E b
    pure (is_ok r, h.entries)
