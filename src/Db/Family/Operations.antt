-- ===== src/Db/Family/Operations.antt =====
-- What the methods of `ColumnFamily` mean to the database.
use rust_rocks.Common.{Option, Bytes, ◌≡◌}
use rust_rocks.Ffi.{Ptr, M, Outcome, IsHeap}
use rust_rocks.Engine.{Engine, Call}
use rust_rocks.Error.{Result, Native}
use rust_rocks.Db.Glue.{DbCall, slice_or_null}
use rust_rocks.Db.Ranges.{Range, start_key, start_key_len, end_key, end_key_len}
use rust_rocks.Db.Requests.{family, with_family, outcome, lower, upper}
use rust_rocks.Db.Requests.Refinement.{family_call_lem, slice-lower, slice-upper}
use rust_rocks.Db.Family.{ColumnFamily}
use rust_rocks.Db.Family.Methods

-- What a client asks of a `ColumnFamily`.
pub data Operation (E : Engine) : Type 0 where
  put : E.WriteOptions → Bytes → Bytes → Operation E
  delete : E.WriteOptions → Bytes → Operation E
  single_delete : E.WriteOptions → Bytes → Operation E
  delete_range : E.WriteOptions → Bytes → Bytes → Operation E
  merge : E.WriteOptions → Bytes → Bytes → Operation E
  compact_range : E.RangeOptions → Range → Operation E

module _ (E : Engine) where
  unfoldable pub operate : ColumnFamily → Operation E → M (Native E) (Result (Unit {0}))
  operate cf (put o k v) = Methods.put E cf o k v
  operate cf (delete o k) = Methods.delete E cf o k
  operate cf (single_delete o k) = Methods.single_delete E cf o k
  operate cf (delete_range o b e) = Methods.delete_range E cf o b e
  operate cf (merge o k v) = Methods.merge E cf o k v
  operate cf (compact_range o r) = Methods.compact_range E cf o r

  -- What an operation on the column family `c` asks of the engine.
  abbrev pub family_call : Operation E → E.Cf → DbCall E
  family_call (put o k v) c = Call.put_cf o c k v
  family_call (delete o k) c = Call.delete_cf o c k
  family_call (single_delete o k) c = Call.single_delete_cf o c k
  family_call (delete_range o b e) c = Call.delete_range_cf o c b e
  family_call (merge o k v) c = Call.merge_cf o c k v
  family_call (compact_range o r) c = Call.compact_range_cf o c (lower r) (upper r)

compact_range_lem :
    (E : Engine) (w : Native E) (p : Ptr) (o : E.RangeOptions) {a a' b b' : Option Bytes}
    {out : Outcome (Native E) (Result (Unit {0}))}
    → a ≡ a'
    → b ≡ b'
    → out ≡ outcome E (with_family E (family E w.heap.cell p) λ c. Call.compact_range_cf o c a b) w
    → out
      ≡ outcome E (with_family E (family E w.heap.cell p) λ c. Call.compact_range_cf o c a' b') w
compact_range_lem E w p o q r h = rw (q, r) at h

-- From a heap that meets `IsHeap`, every operation of a column family makes exactly its engine
-- call on the column family that the handle leads to, and returns the status of that call: an
-- error that owns a new native status, or `Ok`. It is a fault if the handle is not there.
pub operate-family_call :
    (E : Engine) (w : Native E) (cf : ColumnFamily) (op : Operation E)
    → IsHeap w.heap
    → operate E cf op w
      ≡ outcome E (with_family E (family E w.heap.cell cf.handle.raw) (family_call E op)) w
unfolding operate
operate-family_call E w cf (put o k v) is =
    unfold Methods.put in family_call_lem E w is cf.handle.raw λ c. Call.put_cf o c k v
operate-family_call E w cf (delete o k) is =
    unfold Methods.delete in family_call_lem E w is cf.handle.raw λ c. Call.delete_cf o c k
operate-family_call E w cf (single_delete o k) is =
    unfold Methods.single_delete in
    family_call_lem E w is cf.handle.raw λ c. Call.single_delete_cf o c k
operate-family_call E w cf (delete_range o b e) is =
    unfold Methods.delete_range in
    family_call_lem E w is cf.handle.raw λ c. Call.delete_range_cf o c b e
operate-family_call E w cf (merge o k v) is =
    unfold Methods.merge in family_call_lem E w is cf.handle.raw λ c. Call.merge_cf o c k v
operate-family_call E w cf (compact_range o r) is =
    compact_range_lem E w cf.handle.raw o (slice-lower r) (slice-upper r) (
      unfold Methods.compact_range in
      family_call_lem E w is cf.handle.raw λ c.
        Call.compact_range_cf o c (slice_or_null (start_key r) (start_key_len r))
          (slice_or_null (end_key r) (end_key_len r)))
