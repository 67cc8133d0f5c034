-- ===== src/Plugins/FullMerge.antt =====
-- `MergeOperator` of src/merge_operator.rs and `rocks_mergeoperator_t::FullMergeV2` of ctypes.hpp. The
-- state is the output that the library hands in.
use rust_rocks.Common.{
  ℕ, ◌≡◌, refl, Bool, true, false, Option, none, some, List, [], ◌∷◌, Bytes, to_u8, of_u8,
  get_elem?,
}
use rust_rocks.Ffi.{done, panic, M, pure, ◌>>=◌, ◌>>◌, assert}

-- The data of a slice: an operand (or the existing value) of the library, by its index, or bytes of
-- the operator's own, which are gone when it returns. `mem::transmute` lets both pass.
pub data Slice : Type 0 where
  operand : ℕ → Slice
  local : Bytes → Slice

-- `MergeOperationOutput`: the string and the slice, whose data may be null.
pub record MergeOperationOutput : Type 0 where
  pub new_value : Bytes
  pub existing_operand : Option Slice

unfoldable pub assign : Bytes → M MergeOperationOutput (Unit {0})
assign new_value out = done tt (record out { new_value = new_value })

unfoldable pub assign_existing_operand : Slice → M MergeOperationOutput (Unit {0})
assign_existing_operand old_value out = done tt (record out { existing_operand = some old_value })

-- What the user's `full_merge` does with its output, before it returns.
pub data Action : Type 0 where
  assigns : Bytes → Action
  picks : Slice → Action

unfoldable pub act : List Action → M MergeOperationOutput (Unit {0})
unfolding assign assign_existing_operand
act [] = pure tt
act (assigns v ∷ as') = do assign v; act as'
act (picks v ∷ as') = do assign_existing_operand v; act as'

-- A user's operator, for the call at hand: its actions and what it returns.
pub record Operator : Type 0 where
  pub actions : List Action
  pub success : Bool

-- `none` is null.
unfoldable pub rust_merge_operator_call_full_merge_v2 : Option Operator → M MergeOperationOutput ℕ
unfolding act
rust_merge_operator_call_full_merge_v2 none = do assert false; pure 0
rust_merge_operator_call_full_merge_v2 (some op) = do
  assert true
  act op.actions
  pure (to_u8 op.success)

-- `if (merge_out->existing_operand.data() != nullptr) merge_out->new_value.clear()`
abbrev pub clear_unless_null : Option Slice → M MergeOperationOutput (Unit {0})
clear_unless_null none out = done tt out
clear_unless_null (some v) out = done tt (record out { new_value = [] })

unfoldable pub full_merge_v2 : Option Operator → M MergeOperationOutput Bool
unfolding rust_merge_operator_call_full_merge_v2
full_merge_v2 obj = do
  ret ← rust_merge_operator_call_full_merge_v2 obj
  λ out. clear_unless_null out.existing_operand out
  pure (of_u8 ret)

-- The output that the library hands in.
abbrev pub empty_output : MergeOperationOutput
empty_output = record { new_value = []; existing_operand = none }

-- The last value assigned, and the last slice picked.
abbrev pub last_assigned : Bytes → List Action → Bytes
last_assigned v [] = v
last_assigned v (assigns u ∷ as') = last_assigned u as'
last_assigned v (picks u ∷ as') = last_assigned v as'

abbrev pub last_picked : Option Slice → List Action → Option Slice
last_picked o [] = o
last_picked o (assigns u ∷ as') = last_picked o as'
last_picked o (picks u ∷ as') = last_picked (some u) as'

-- What can be read from a slice once the operator has returned.
abbrev pub read_slice : List Bytes → Slice → Option Bytes
read_slice operands (operand i) = get_elem? operands i
read_slice operands (local b) = none

-- The merge result, by the doc of `MergeOperationOutput`: the operand if it is set, or else the value.
abbrev pub merge_result : List Bytes → MergeOperationOutput → Option Bytes
merge_result operands out = elim out.existing_operand [
  | none ↦ some out.new_value
  | some v ↦ read_slice operands v
]

-- What the operator's actions make of it.
abbrev pub described : List Bytes → Option Slice → Bytes → Option Bytes
described operands none v = some v
described operands (some u) v = read_slice operands u

act_lem :
    (as' : List Action) (v : Bytes) (o : Option Slice)
    → act as' (record { new_value = v; existing_operand = o })
      ≡ done tt (record { new_value = last_assigned v as'; existing_operand = last_picked o as' })
unfolding act assign assign_existing_operand
act_lem [] v o = refl
act_lem (assigns u ∷ as') v o = act_lem as' u o
act_lem (picks u ∷ as') v o = act_lem as' v (some u)

of_u8-to_u8 : (b : Bool) → of_u8 (to_u8 b) ≡ b
of_u8-to_u8 true = refl
of_u8-to_u8 false = refl

abbrev merged : Option Slice → Bytes → MergeOperationOutput
merged none v = record { new_value = v; existing_operand = none }
merged (some u) v = record { new_value = []; existing_operand = some u }

merge_result-merged :
    (operands : List Bytes) (o : Option Slice) (v : Bytes)
    → merge_result operands (merged o v) ≡ described operands o v
merge_result-merged operands none v = refl
merge_result-merged operands (some u) v = refl

cleared_lem :
    (o : Option Slice) (v : Bytes)
    → clear_unless_null o (record { new_value = v; existing_operand = o }) ≡ done tt (merged o v)
cleared_lem none v = refl
cleared_lem (some u) v = refl

-- `FullMergeV2` returns what the operator returns, and hands the library one merge result: the
-- operand that was picked last, or, if none was, the value assigned last, which is empty if none
-- was. If the slice picked last is no operand, its bytes cannot be read any more. With no operator
-- the call panics.
pub full_merge_v2-merged :
    (operands : List Bytes) (op : Operator)
    → ((out : MergeOperationOutput) × (full_merge_v2 (some op) empty_output ≡ done op.success out)
        × (merge_result operands out
            ≡ described operands (last_picked none op.actions) (last_assigned [] op.actions)))
      × (full_merge_v2 none empty_output ≡ panic empty_output)
unfolding full_merge_v2
full_merge_v2-merged operands op =
    let o : Option Slice = last_picked none op.actions in
    let v : Bytes = last_assigned [] op.actions in
    (
      (
        merged o v,
        rw (act_lem op.actions [] none, cleared_lem o v, of_u8-to_u8 op.success) refl,
        merge_result-merged operands o v,
      ),
      refl,
    )
