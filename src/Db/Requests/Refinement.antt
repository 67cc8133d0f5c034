-- ===== src/Db/Requests/Refinement.antt =====
-- Every request does in the native heap and in the database what it means, and no more.
use rust_rocks.Common.{
  ◌+◌, ◌∙◌, ◌≡◌, refl, ap, false, true, Option, none, some, List, [], ◌∷◌, Bytes, arith,
  take-length, Bool-cases, inl, inr, fun_ext,
}
use rust_rocks.Ffi.Object.{batch, status}
use rust_rocks.Ffi.{update, Ptr, Outcome, done, fault, ◌>>=◌, and_then, IsHeap}
use rust_rocks.Engine.{Engine, Call}
use rust_rocks.Error.{Result, Native, from_ll}
use rust_rocks.Error.Ownership.{report, report_lem}
use rust_rocks.Db
use rust_rocks.Db.Glue.{DbCall, load_cf, load_cfs, call_and_save, slice_or_null}
use rust_rocks.Db.Ranges.{
  Range, range, range_to, range_from, range_full, start_key, start_key_len, end_key, end_key_len,
}
use rust_rocks.Db.Requests.{
  Request, put, put_cf, delete, delete_cf, single_delete, single_delete_cf, delete_range_cf, merge,
  merge_cf, write, drop_column_family, compact_range, pause_background_work,
  continue_background_work, enable_auto_compaction, flush, sync_wal, disable_file_deletions,
  enable_file_deletions, delete_file, delete_files_in_range, perform, meaning, family, families,
  with_family, lower, upper, outcome, handed_over, after_call, status_after,
}

pub slice-lower : (r : Range) → slice_or_null (start_key r) (start_key_len r) ≡ lower r
unfolding start_key start_key_len
slice-lower (range b e) = ap some (take-length b)
slice-lower (range_to e) = refl
slice-lower (range_from b) = ap some (take-length b)
slice-lower range_full = refl

pub slice-upper : (r : Range) → slice_or_null (end_key r) (end_key_len r) ≡ upper r
unfolding end_key end_key_len
slice-upper (range b e) = ap some (take-length e)
slice-upper (range_to e) = ap some (take-length e)
slice-upper (range_from b) = refl
slice-upper range_full = refl

module _ (E : Engine) (w : Native E) (is : IsHeap w.heap) where
  pub call_and_save_lem :
      (c : DbCall E) → (call_and_save E c >>= from_ll E) w ≡ outcome E (some c) w
  unfolding call_and_save
  call_and_save_lem c = unfold report in report_lem E (after_call E c w) is (status_after E c w)

  abbrev found : {A : Type 0} → Option A → Outcome (Native E) A
  found none = fault
  found (some a) = done a w

  load_cf_lem : (p : Ptr) → load_cf E p w ≡ found (family E w.heap.cell p)
  unfolding load_cf
  load_cf_lem p = ground arith

  load_cfs_lem : (ps : List Ptr) → load_cfs E ps w ≡ found (families E w.heap.cell ps)
  unfolding load_cfs
  load_cfs_lem [] = refl
  load_cfs_lem (p ∷ ps) = ground (arith, load_cf_lem p, load_cfs_lem ps)

  found_call_lem :
      {A : Type 0} (o : Option A) (f : A → DbCall E)
      → and_then (and_then (found o) (λ a. call_and_save E (f a))) (from_ll E)
        ≡ outcome E (with_family E o f) w
  found_call_lem none f = refl
  found_call_lem (some a) f = call_and_save_lem (f a)

  pub family_call_lem :
      (p : Ptr) (f : E.Cf → DbCall E)
      → ((load_cf E p >>= λ c. call_and_save E (f c)) >>= from_ll E) w
        ≡ outcome E (with_family E (family E w.heap.cell p) f) w
  family_call_lem p f = rw (load_cf_lem p) (found_call_lem (family E w.heap.cell p) f)

  families_call_lem :
      (ps : List Ptr) (f : List E.Cf → DbCall E)
      → ((load_cfs E ps >>= λ cs. call_and_save E (f cs)) >>= from_ll E) w
        ≡ outcome E (with_family E (families E w.heap.cell ps) f) w
  families_call_lem ps f = rw (load_cfs_lem ps) (found_call_lem (families E w.heap.cell ps) f)

  pub compact_range_lem :
      (o : E.RangeOptions) {a a' b b' : Option Bytes} {out : Outcome (Native E) (Result (Unit {0}))}
      → a ≡ a'
      → b ≡ b'
      → out ≡ outcome E (some (Call.compact_range o a b)) w
      → out ≡ outcome E (some (Call.compact_range o a' b')) w
  compact_range_lem o p q h = cc

  write_failed :
      (o : E.WriteOptions) (b : E.Batch)
      → E.is_ok (E.call (Call.write o b) w.state).0 ≡ false
      → perform E (write o b) w
        ≡ done (Result.err (record { raw = w.heap.next + 1 })) (record {
          heap = record {
            next = w.heap.next + 1 + 1;
            cell =
                update
                  (update
                    (update w.heap.cell w.heap.next (some (batch b)))
                    (w.heap.next + 1)
                    (some (status (E.call (Call.write o b) w.state).0)))
                  w.heap.next
                  none;
          };
          state = (E.call (Call.write o b) w.state).1;
        })
  unfolding perform Db.write call_and_save
  write_failed o b bad =
      ground (arith, bad, is.positive, E.is_ok_iff_code (E.call (Call.write o b) w.state).0)

  -- A batch that is handed over is written and then released, whatever the status.
  write_lem :
      (o : E.WriteOptions) (b : E.Batch)
      → perform E (write o b) w ≡ outcome E (some (Call.write o b)) (handed_over E (write o b) w)
  unfolding perform Db.write call_and_save
  write_lem o b = elim (Bool-cases (E.is_ok (E.call (Call.write o b) w.state).0)) [
    | inl good ↦ ground (arith, good, is.positive)
    | inr bad ↦
        let s = (E.call (Call.write o b) w.state).0 in
        let n = w.heap.next in
        let lent = update w.heap.cell n (some (batch b)) in
        let swapped : update (update lent (n + 1) (some (status s))) n none
            ≡ update (update lent n none) (n + 1) (some (status s)) =
          fun_ext (λ q. ground arith) in
        write_failed o b bad ∙ rw swapped (ground (arith, bad))
  ]

  pub perform_lem :
      (r : Request E) → perform E r w ≡ outcome E (meaning E w.heap.cell r) (handed_over E r w)
  unfolding perform
  perform_lem (put o k v) = unfold Db.put in call_and_save_lem (Call.put o k v)
  perform_lem (put_cf o p k v) = unfold Db.put_cf in family_call_lem p λ c. Call.put_cf o c k v
  perform_lem (delete o k) = unfold Db.delete in call_and_save_lem (Call.delete o k)
  perform_lem (delete_cf o p k) = unfold Db.delete_cf in family_call_lem p λ c. Call.delete_cf o c k
  perform_lem (single_delete o k) =
      unfold Db.single_delete in call_and_save_lem (Call.single_delete o k)
  perform_lem (single_delete_cf o p k) =
      unfold Db.single_delete_cf in family_call_lem p λ c. Call.single_delete_cf o c k
  perform_lem (delete_range_cf o p b e) =
      unfold Db.delete_range_cf in family_call_lem p λ c. Call.delete_range_cf o c b e
  perform_lem (merge o k v) = unfold Db.merge in call_and_save_lem (Call.merge o k v)
  perform_lem (merge_cf o p k v) =
      unfold Db.merge_cf in family_call_lem p λ c. Call.merge_cf o c k v
  perform_lem (write o b) = write_lem o b
  perform_lem (drop_column_family p) =
      unfold Db.drop_column_family in family_call_lem p λ c. Call.drop_column_family c
  perform_lem (compact_range o r) = compact_range_lem o (slice-lower r) (slice-upper r) (
      unfold Db.compact_range in
      call_and_save_lem (
        Call.compact_range o (slice_or_null (start_key r) (start_key_len r))
          (slice_or_null (end_key r) (end_key_len r))))
  perform_lem pause_background_work =
      unfold Db.pause_background_work in call_and_save_lem Call.pause_background_work
  perform_lem continue_background_work =
      unfold Db.continue_background_work in call_and_save_lem Call.continue_background_work
  perform_lem (enable_auto_compaction ps) =
      unfold Db.enable_auto_compaction in families_call_lem ps λ cs. Call.enable_auto_compaction cs
  perform_lem (flush o) = unfold Db.flush in call_and_save_lem (Call.flush o)
  perform_lem sync_wal = unfold Db.sync_wal in call_and_save_lem Call.sync_wal
  perform_lem disable_file_deletions =
      unfold Db.disable_file_deletions in call_and_save_lem Call.disable_file_deletions
  perform_lem (enable_file_deletions true) =
      unfold Db.enable_file_deletions in call_and_save_lem (Call.enable_file_deletions true)
  perform_lem (enable_file_deletions false) =
      unfold Db.enable_file_deletions in call_and_save_lem (Call.enable_file_deletions false)
  perform_lem (delete_file name) =
      unfold Db.delete_file in call_and_save_lem (Call.delete_file name)
  perform_lem (delete_files_in_range p b e) =
      unfold Db.delete_files_in_range in family_call_lem p λ c. Call.delete_files_in_range c b e
