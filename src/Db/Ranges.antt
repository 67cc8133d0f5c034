-- ===== src/Db/Ranges.antt =====
-- `ToCompactRange` of src/db.rs: the bounds of `compact_range` as raw pointers with lengths. A
-- pointer is null or the bytes that it leads to; the pointer of an empty slice is not null.
use rust_rocks.Common.{ℕ, Option, none, some, Bytes, length}

-- `begin..end`, `..end`, `begin..` and `..`
pub data Range : Type 0 where
  range : Bytes → Bytes → Range
  range_to : Bytes → Range
  range_from : Bytes → Range
  range_full : Range

unfoldable pub start_key : Range → Option Bytes
start_key (range begin end) = some begin
start_key (range_to end) = none
start_key (range_from begin) = some begin
start_key range_full = none

unfoldable pub start_key_len : Range → ℕ
start_key_len (range begin end) = length begin
start_key_len (range_to end) = 0
start_key_len (range_from begin) = length begin
start_key_len range_full = 0

unfoldable pub end_key : Range → Option Bytes
end_key (range begin end) = some end
end_key (range_to end) = some end
end_key (range_from begin) = none
end_key range_full = none

unfoldable pub end_key_len : Range → ℕ
end_key_len (range begin end) = length end
end_key_len (range_to end) = length end
end_key_len (range_from begin) = 0
end_key_len range_full = 0
