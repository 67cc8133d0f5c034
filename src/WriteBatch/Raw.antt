-- ===== src/WriteBatch/Raw.antt =====
-- `WriteBatch` of src/write_batch.rs as an object: its pointer, what lies there, and its drop.
use rust_rocks.Common.{◌==◌, if◌then◌else◌}
use rust_rocks.Ffi.{Ptr, null, done, fault, M, pure, ◌>>=◌, load, free}
use rust_rocks.Ffi.Object.{Object, batch}
use rust_rocks.Engine.{Engine}
use rust_rocks.Error.{Native}

pub record WriteBatch : Type 0 where
  pub raw : Ptr

module _ (E : Engine) where
  abbrev pub expect_batch : Object E.Rep E.Cf E.Snap E.Batch → M (Native E) E.Batch
  expect_batch (batch b) w = done b w
  expect_batch _ w = fault

  unfoldable pub load_batch : Ptr → M (Native E) E.Batch
  load_batch p = load p >>= expect_batch

  -- `Drop for WriteBatch`
  unfoldable pub drop_batch : WriteBatch → M (Native E) (Unit {0})
  drop_batch b = if b.raw == null then pure tt else free b.raw
