-- ===== src/WriteBatch.antt =====
-- src/write_batch.rs with rocks-sys/rocks/write_batch.cc and the handler of ctypes.hpp: batches of
-- updates, and the iteration over them. `rocksdb::WriteBatch` itself is a parameter.
pub mod Raw
pub mod Ops
pub mod Handler
pub mod Script
pub mod Holding
pub mod RoundTrip
use rust_rocks.Common.{ℕ, ◌≡◌, Bool, true, Option, List, [], ◌∷◌, ◌++◌, Bytes, if◌then◌else◌}
use rust_rocks.Engine.{Engine}

-- The methods of `rocksdb::WriteBatch` that append an update.
pub data Update (Cf : Type 0) : Type 0 where
  put : Bytes → Bytes → Update Cf
  put_cf : Cf → Bytes → Bytes → Update Cf
  delete : Bytes → Update Cf
  delete_cf : Cf → Bytes → Update Cf
  single_delete : Bytes → Update Cf
  single_delete_cf : Cf → Bytes → Update Cf
  delete_range : Bytes → Bytes → Update Cf
  delete_range_cf : Cf → Bytes → Bytes → Update Cf
  merge : Bytes → Bytes → Update Cf
  merge_cf : Cf → Bytes → Bytes → Update Cf
  put_log_data : Bytes → Update Cf

-- The methods of `WriteBatch::Handler` that `Iterate` calls, and of the trait `WriteBatchHandler`.
pub data Callback : Type 0 where
  put_cf : ℕ → Bytes → Bytes → Callback
  delete_cf : ℕ → Bytes → Callback
  single_delete_cf : ℕ → Bytes → Callback
  delete_range_cf : ℕ → Bytes → Bytes → Callback
  merge_cf : ℕ → Bytes → Bytes → Callback
  log_data : Bytes → Callback
  mark_begin_prepare : Callback
  mark_end_prepare mark_rollback mark_commit : Bytes → Callback

-- The callback that an update leads to. The default column family has the id 0.
abbrev pub callback_of : {Cf : Type 0} → (Cf → ℕ) → Update Cf → Callback
callback_of id (put k v) = Callback.put_cf 0 k v
callback_of id (put_cf c k v) = Callback.put_cf (id c) k v
callback_of id (delete k) = Callback.delete_cf 0 k
callback_of id (delete_cf c k) = Callback.delete_cf (id c) k
callback_of id (single_delete k) = Callback.single_delete_cf 0 k
callback_of id (single_delete_cf c k) = Callback.single_delete_cf (id c) k
callback_of id (delete_range b e) = Callback.delete_range_cf 0 b e
callback_of id (delete_range_cf c b e) = Callback.delete_range_cf (id c) b e
callback_of id (merge k v) = Callback.merge_cf 0 k v
callback_of id (merge_cf c k v) = Callback.merge_cf (id c) k v
callback_of id (put_log_data blob) = Callback.log_data blob

-- `Iterate` asks `Continue` before each callback.
abbrev pub feed : {S : Type 0} → (Callback → S → S) → (S → Bool) → List Callback → S → S
feed step go [] s = s
feed step go (c ∷ cs) s = let rest = feed step go cs (step c s) in if go s then rest else s

-- `rocksdb::WriteBatch`, whose state is what it will call and what its save points have recorded.
pub record Batches (E : Engine) : Type 1 where
  pub create : E.Batch
  pub add : Update E.Cf → E.Batch → E.Batch
  pub clear : E.Batch → E.Batch
  pub set_save_point : E.Batch → E.Batch
  pub rollback_to_save_point : E.Batch → E.Rep × E.Batch
  pub iterate : {S : Type 0} → (Callback → S → S) → (S → Bool) → E.Batch → S → E.Rep × S
  pub count : E.Batch → ℕ
  pub data_of : E.Batch → Bytes
  pub has_put : E.Batch → Bool
  pub has_delete : E.Batch → Bool
  pub has_single_delete : E.Batch → Bool
  pub has_delete_range : E.Batch → Bool
  pub has_merge : E.Batch → Bool
  pub has_begin_prepare : E.Batch → Bool
  pub has_end_prepare : E.Batch → Bool
  pub has_commit : E.Batch → Bool
  pub has_rollback : E.Batch → Bool
  -- keys and values that the format of a batch can hold
  pub fits : Update E.Cf → Bool
  pub contents : E.Batch → List Callback
  pub saved : E.Batch → List (List Callback)
  pub contents-create : contents create ≡ []
  pub saved-create : saved create ≡ []
  pub contents-add :
      (u : Update E.Cf) (b : E.Batch)
      → fits u ≡ true
      → contents (add u b) ≡ contents b ++ (callback_of E.cf_id u ∷ [])
  pub saved-add : (u : Update E.Cf) (b : E.Batch) → fits u ≡ true → saved (add u b) ≡ saved b
  pub contents-clear : (b : E.Batch) → contents (clear b) ≡ []
  pub saved-clear : (b : E.Batch) → saved (clear b) ≡ []
  pub contents-set_save_point : (b : E.Batch) → contents (set_save_point b) ≡ contents b
  pub saved-set_save_point : (b : E.Batch) → saved (set_save_point b) ≡ contents b ∷ saved b
  -- with no save point left, `Status::NotFound()`
  pub rollback-none :
      (b : E.Batch)
      → saved b ≡ []
      → (E.code (rollback_to_save_point b).0 ≡ 1)
        × (contents (rollback_to_save_point b).1 ≡ contents b)
        × (saved (rollback_to_save_point b).1 ≡ [])
  pub rollback-some :
      (b : E.Batch) (c : List Callback) (cs : List (List Callback))
      → saved b ≡ c ∷ cs
      → (E.code (rollback_to_save_point b).0 ≡ 0)
        × (contents (rollback_to_save_point b).1 ≡ c)
        × (saved (rollback_to_save_point b).1 ≡ cs)
  pub iterate-feed :
      {S : Type 0} (step : Callback → S → S) (go : S → Bool) (b : E.Batch) (s : S)
      → (iterate step go b s).1 ≡ feed step go (contents b) s
  pub code-iterate :
      {S : Type 0} (step : Callback → S → S) (go : S → Bool) (b : E.Batch) (s : S)
      → ((t : S) → go t ≡ true)
      → E.code (iterate step go b s).0 ≡ 0
