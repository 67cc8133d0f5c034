-- ===== src/Plugins/Filter.antt =====
-- `CompactionFilter` of src/compaction_filter.rs and `rocks_compaction_filter_t::FilterV2` of
-- ctypes.hpp: a decision crosses as an integer and two strings.
use rust_rocks.Common.{
  ℕ, ◌≡◌, refl, not, Option, none, some, Bytes, ◌==◌, if◌then◌else◌, arith, ◌≢◌,
}
use rust_rocks.Ffi.{Ptr, null, done, M, pure, ◌>>◌, assert}

pub data Decision : Type 0 where
  keep remove : Decision
  change_value remove_and_skip_until : Bytes → Decision

unfoldable pub to_c : Decision → ℕ
to_c keep = 0
to_c remove = 1
to_c (change_value v) = 2
to_c (remove_and_skip_until k) = 3

-- The level, the key, the type of the value, and the value.
abbrev pub FilterFn : Type 0
FilterFn = ℕ → Bytes → ℕ → Bytes → Decision

-- The result, and what is then in `*new_value` and `*skip_until`.
abbrev pub answer : Decision → Bytes → Bytes → ℕ × Bytes × Bytes
answer keep new_value skip_until = (0, new_value, skip_until)
answer remove new_value skip_until = (1, new_value, skip_until)
answer (change_value nval) new_value skip_until = (2, nval, skip_until)
answer (remove_and_skip_until skip) new_value skip_until = (3, new_value, skip)

unfoldable pub rust_compaction_filter_call :
    {W : Type 0} → FilterFn → Ptr → ℕ → Bytes → ℕ → Bytes → Bytes → Bytes → M W (ℕ × Bytes × Bytes)
rust_compaction_filter_call filter f level key value_type existing_value new_value skip_until = do
  assert (not (f == null))
  pure (answer (filter level key value_type existing_value) new_value skip_until)

-- How the library reads the answer: the value where the decision is `kChangeValue`, the key where it
-- is `kRemoveAndSkipUntil`. Any other integer is no decision.
abbrev pub read_decision : ℕ × Bytes × Bytes → Option Decision
read_decision (ret, new_value, skip_until) =
    if ret == 0
    then some keep
    else if ret == 1
    then some remove
    else if ret == 2
    then some (change_value new_value)
    else if ret == 3
    then some (remove_and_skip_until skip_until)
    else none

read_decision-answer : (d : Decision) (v k : Bytes) → read_decision (answer d v k) ≡ some d
read_decision-answer keep v k = refl
read_decision-answer remove v k = refl
read_decision-answer (change_value u) v k = refl
read_decision-answer (remove_and_skip_until u) v k = refl

to_c-answer : (d : Decision) (v k : Bytes) → (answer d v k).0 ≡ to_c d
unfolding to_c
to_c-answer keep v k = refl
to_c-answer remove v k = refl
to_c-answer (change_value u) v k = refl
to_c-answer (remove_and_skip_until u) v k = refl

-- For a filter whose pointer is not null, the library reads back the decision that the filter
-- made, with its value or key, whatever the two strings held before; the integer is that of
-- `to_c`.
pub read_decision-rust_compaction_filter_call :
    {W : Type 0} (filter : FilterFn) (f : Ptr) (level : ℕ) (key : Bytes) (value_type : ℕ)
    (existing_value new_value skip_until : Bytes) (w : W)
    → f ≢ null
    → ((a : ℕ × Bytes × Bytes) × (rust_compaction_filter_call filter f level key value_type
            existing_value new_value skip_until w
          ≡ done a w)
        × (read_decision a ≡ some (filter level key value_type existing_value))
        × (a.0 ≡ to_c (filter level key value_type existing_value)))
unfolding rust_compaction_filter_call
read_decision-rust_compaction_filter_call filter f level key value_type existing_value new_value
      skip_until w live =
    let d = filter level key value_type existing_value in
    (
      answer d new_value skip_until,
      ground (arith, live),
      read_decision-answer d new_value skip_until,
      to_c-answer d new_value skip_until,
    )
