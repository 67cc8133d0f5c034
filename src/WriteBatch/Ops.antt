-- ===== src/WriteBatch/Ops.antt =====
-- The operations of `WriteBatch`. Each goes through the glue function of the same name with the
-- prefix `rocks_writebatch_`, which applies the method to `b->rep`.
use rust_rocks.Common.{ℕ, Bool, Bytes, ◌==◌, not, to_u8}
use rust_rocks.Ffi.{Ptr, M, pure, ◌>>=◌, ◌>>◌, alloc, store}
use rust_rocks.Ffi.Object.{batch}
use rust_rocks.Engine.{Engine}
use rust_rocks.Error.{Native, Result, save_error, from_ll}
use rust_rocks.Db.Glue.{load_cf}
use rust_rocks.WriteBatch.{Batches, Update}
use rust_rocks.WriteBatch.Raw.{WriteBatch, load_batch}

module _ (E : Engine) (B : Batches E) where
  -- A method that changes `b->rep` and returns nothing, or a status that the glue does not look at.
  unfoldable pub modify : Ptr → (E.Batch → E.Batch) → M (Native E) (Unit {0})
  unfolding load_batch
  modify p f = do b ← load_batch E p; store p (batch (f b))

  -- `new`
  unfoldable pub new : M (Native E) WriteBatch
  new = do p ← alloc (batch B.create); pure (record { raw = p })

  -- `Clone for WriteBatch`
  unfoldable pub clone : WriteBatch → M (Native E) WriteBatch
  unfolding load_batch
  clone b = do c ← load_batch E b.raw; p ← alloc (batch c); pure (record { raw = p })

  unfoldable pub clear : WriteBatch → M (Native E) WriteBatch
  unfolding modify
  clear b = modify b.raw B.clear >> pure b

  unfoldable pub put : WriteBatch → Bytes → Bytes → M (Native E) WriteBatch
  unfolding modify
  put b k v = modify b.raw (B.add (Update.put k v)) >> pure b

  unfoldable pub put_cf : WriteBatch → Ptr → Bytes → Bytes → M (Native E) WriteBatch
  unfolding modify load_cf
  put_cf b cf k v = do c ← load_cf E cf; modify b.raw (B.add (Update.put_cf c k v)); pure b

  unfoldable pub delete : WriteBatch → Bytes → M (Native E) WriteBatch
  unfolding modify
  delete b k = modify b.raw (B.add (Update.delete k)) >> pure b

  unfoldable pub delete_cf : WriteBatch → Ptr → Bytes → M (Native E) WriteBatch
  unfolding modify load_cf
  delete_cf b cf k = do c ← load_cf E cf; modify b.raw (B.add (Update.delete_cf c k)); pure b

  unfoldable pub single_delete : WriteBatch → Bytes → M (Native E) WriteBatch
  unfolding modify
  single_delete b k = modify b.raw (B.add (Update.single_delete k)) >> pure b

  unfoldable pub single_delete_cf : WriteBatch → Ptr → Bytes → M (Native E) WriteBatch
  unfolding modify load_cf
  single_delete_cf b cf k = do
    c ← load_cf E cf
    modify b.raw (B.add (Update.single_delete_cf c k))
    pure b

  unfoldable pub delete_range : WriteBatch → Bytes → Bytes → M (Native E) WriteBatch
  unfolding modify
  delete_range b b_key e_key = modify b.raw (B.add (Update.delete_range b_key e_key)) >> pure b

  unfoldable pub delete_range_cf : WriteBatch → Ptr → Bytes → Bytes → M (Native E) WriteBatch
  unfolding modify load_cf
  delete_range_cf b cf b_key e_key = do
    c ← load_cf E cf
    modify b.raw (B.add (Update.delete_range_cf c b_key e_key))
    pure b

  unfoldable pub merge : WriteBatch → Bytes → Bytes → M (Native E) WriteBatch
  unfolding modify
  merge b k v = modify b.raw (B.add (Update.merge k v)) >> pure b

  unfoldable pub merge_cf : WriteBatch → Ptr → Bytes → Bytes → M (Native E) WriteBatch
  unfolding modify load_cf
  merge_cf b cf k v = do c ← load_cf E cf; modify b.raw (B.add (Update.merge_cf c k v)); pure b

  unfoldable pub put_log_data : WriteBatch → Bytes → M (Native E) WriteBatch
  unfolding modify
  put_log_data b blob = modify b.raw (B.add (Update.put_log_data blob)) >> pure b

  unfoldable pub set_save_point : WriteBatch → M (Native E) WriteBatch
  unfolding modify
  set_save_point b = modify b.raw B.set_save_point >> pure b

  unfoldable pub rocks_writebatch_rollback_to_save_point : Ptr → M (Native E) Ptr
  unfolding load_batch save_error
  rocks_writebatch_rollback_to_save_point p = do
    b ← load_batch E p
    let (s, b') = B.rollback_to_save_point b
    store p (batch b')
    save_error E s

  unfoldable pub rollback_to_save_point : WriteBatch → M (Native E) (Result (Unit {0}))
  unfolding rocks_writebatch_rollback_to_save_point from_ll
  rollback_to_save_point b = do
    status ← rocks_writebatch_rollback_to_save_point b.raw
    from_ll E status

  -- An answer about `b->rep`, which changes nothing.
  unfoldable pub query : {A : Type 0} → Ptr → (E.Batch → A) → M (Native E) A
  unfolding load_batch
  query p f = do b ← load_batch E p; pure (f b)

  unfoldable pub get_data : WriteBatch → M (Native E) Bytes
  unfolding query
  get_data b = query b.raw B.data_of

  unfoldable pub count : WriteBatch → M (Native E) ℕ
  unfolding query
  count b = query b.raw B.count

  unfoldable pub has_put : WriteBatch → M (Native E) Bool
  unfolding query
  has_put b = do u ← query b.raw (λ c. to_u8 (B.has_put c)); pure (not (u == 0))

  unfoldable pub has_delete : WriteBatch → M (Native E) Bool
  unfolding query
  has_delete b = do u ← query b.raw (λ c. to_u8 (B.has_delete c)); pure (not (u == 0))

  unfoldable pub has_single_delete : WriteBatch → M (Native E) Bool
  unfolding query
  has_single_delete b = do u ← query b.raw (λ c. to_u8 (B.has_single_delete c)); pure (not (u == 0))

  unfoldable pub has_delete_range : WriteBatch → M (Native E) Bool
  unfolding query
  has_delete_range b = do u ← query b.raw (λ c. to_u8 (B.has_delete_range c)); pure (not (u == 0))

  unfoldable pub has_merge : WriteBatch → M (Native E) Bool
  unfolding query
  has_merge b = do u ← query b.raw (λ c. to_u8 (B.has_merge c)); pure (not (u == 0))

  unfoldable pub has_begin_prepare : WriteBatch → M (Native E) Bool
  unfolding query
  has_begin_prepare b = do u ← query b.raw (λ c. to_u8 (B.has_begin_prepare c)); pure (not (u == 0))

  unfoldable pub has_end_prepare : WriteBatch → M (Native E) Bool
  unfolding query
  has_end_prepare b = do u ← query b.raw (λ c. to_u8 (B.has_end_prepare c)); pure (not (u == 0))

  unfoldable pub has_commit : WriteBatch → M (Native E) Bool
  unfolding query
  has_commit b = do u ← query b.raw (λ c. to_u8 (B.has_commit c)); pure (not (u == 0))

  -- The source asks `rocks_writebatch_has_put` here.
  unfoldable pub has_rollback : WriteBatch → M (Native E) Bool
  unfolding query
  has_rollback b = do u ← query b.raw (λ c. to_u8 (B.has_put c)); pure (not (u == 0))
