-- ===== src/Plugins/Merge.antt =====
-- `AssociativeMergeOperator` of src/merge_operator.rs and `rocks_associative_mergeoperator_t` of
-- ctypes.hpp: the merged value crosses as a buffer that Rust forgets and C++ hands back to be freed.
use rust_rocks.Common.{
  ℕ, ◌+◌, ◌<◌, ◌≡◌, ◌≢◌, refl, Bool, true, false, not, Option, none, some, [], ◌∷◌, Bytes, ◌==◌,
  if◌then◌else◌, length, take, take-length, arith,
}
use rust_rocks.Ffi.{
  Ptr, null, done, fault, M, pure, ◌>>=◌, ◌>>◌, alloc, load, free, assert, update, IsHeap,
  SameCells,
}
use rust_rocks.Ffi.Object.{Object, buffer}
use rust_rocks.Engine.{Engine}
use rust_rocks.Error.{Native}

-- `Vec<u8>`
pub record Vec : Type 0 where
  pub capacity : ℕ
  pub bytes : Bytes

-- The method `merge` of the user's operator, without its logger.
abbrev pub MergeFn : Type 0
MergeFn = Bytes → Option Bytes → Bytes → Option Vec

module _ (E : Engine) where
  -- `val.as_ptr()` of a `Vec` that is then forgotten. One of no capacity has no buffer, and its
  -- pointer dangles: it is 1.
  unfoldable pub forget : Vec → M (Native E) Ptr
  forget v = if v.capacity == 0 then pure 1 else alloc (buffer v.capacity v.bytes)

  -- The boolean result, and what is written to `*new_value` and `*new_value_len`.
  abbrev pub hand_over : Option Vec → M (Native E) (ℕ × Ptr × ℕ)
  hand_over none = pure (0, null, 0)
  hand_over (some val) = do p ← forget val; pure (1, p, length val.bytes)

  unfoldable pub rust_associative_merge_operator_call :
      MergeFn → Ptr → Bytes → Option Bytes → Bytes → M (Native E) (ℕ × Ptr × ℕ)
  unfolding forget
  rust_associative_merge_operator_call f op key existing_value value = do
    assert (not (op == null))
    hand_over (f key existing_value value)

  -- A buffer is given back to the allocator with the size that it was asked for.
  abbrev pub expect_size : ℕ → Object E.Rep E.Cf E.Snap E.Batch → M (Native E) (Unit {0})
  expect_size n (buffer cap bs) w = if n == cap then done tt w else fault
  expect_size n _ w = fault

  -- The drop of `Vec::from_raw_parts(base, len, len)`, which frees nothing if the capacity is 0.
  unfoldable pub rust_drop_vec_u8 : Ptr → ℕ → M (Native E) (Unit {0})
  rust_drop_vec_u8 base len =
      if len == 0 then pure tt else (do o ← load base; expect_size len o; free base)

  abbrev pub expect_buffer : Object E.Rep E.Cf E.Snap E.Batch → M (Native E) Bytes
  expect_buffer (buffer cap bs) w = done bs w
  expect_buffer _ w = fault

  -- `new_value->assign(nval, nval_len)`
  abbrev pub assign : Ptr → ℕ → M (Native E) Bytes
  assign nval len =
      if len == 0 then pure [] else (do o ← load nval; bs ← expect_buffer o; pure (take len bs))

  -- `rocks_associative_mergeoperator_t::Merge`: whether it succeeded, and `*new_value`, which the
  -- library hands in empty.
  unfoldable pub merge : MergeFn → Ptr → Bytes → Option Bytes → Bytes → M (Native E) (Bool × Bytes)
  unfolding rust_associative_merge_operator_call rust_drop_vec_u8
  merge f op key existing_value value = do
    (ret, nval, nval_len) ← rust_associative_merge_operator_call f op key existing_value value
    if ret == 0 then pure (false, []) else (do
      new_value ← assign nval nval_len
      rust_drop_vec_u8 nval nval_len
      pure (true, new_value))

module _ (E : Engine) (w : Native E) (is : IsHeap w.heap) (f : MergeFn) (op : Ptr)
    (live : op ≢ null) (key : Bytes) (existing_value : Option Bytes) (value : Bytes) where
  -- From a heap that meets `IsHeap`, an operator that declines makes the merge fail, and nothing
  -- is allocated. The operator's pointer is not null.
  pub merge-none :
      f key existing_value value ≡ none
      → merge E f op key existing_value value w ≡ done (false, []) w
  unfolding merge
  merge-none h = ground (arith, h, live)

  -- From a heap that meets `IsHeap`, an operator whose result is a vector as long as its capacity
  -- makes the merge succeed with exactly that value, and the buffer is released. The operator's
  -- pointer is not null.
  pub merge-exact :
      (bs : Bytes)
      → f key existing_value value ≡ some (record { capacity = length bs; bytes = bs })
      → ((w' : Native E) × (merge E f op key existing_value value w ≡ done (true, bs) w')
          × SameCells w.heap w'.heap
          × (w'.state ≡ w.state))
  unfolding merge forget
  merge-exact [] h = (w, ground (arith, h, live), λ p. refl, refl)
  merge-exact (b ∷ bs) h = (
    record w {
      heap = record {
        next = w.heap.next + 1;
        cell =
            update (update w.heap.cell w.heap.next (some (buffer (length (b ∷ bs)) (b ∷ bs))))
              w.heap.next none;
      };
    },
    ground (arith, h, live, take-length (b ∷ bs)),
    λ p. ground (arith, is.unused p),
    refl,
  )

  -- From a heap that meets `IsHeap`, an operator whose result is a vector with spare capacity
  -- makes the merge release the buffer with a wrong size, which is a fault, unless the vector is
  -- empty. The operator's pointer is not null.
  pub merge-spare :
      (cap : ℕ) (b : ℕ) (bs : Bytes)
      → f key existing_value value ≡ some (record { capacity = cap; bytes = b ∷ bs })
      → length (b ∷ bs) < cap
      → merge E f op key existing_value value w ≡ fault
  unfolding merge forget
  merge-spare cap b bs h spare = ground (arith, h, live, spare)
