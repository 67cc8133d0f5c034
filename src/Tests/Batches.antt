-- ===== src/Tests/Batches.antt =====
-- Tests of WriteBatch, with batches that meet the laws of `Batches`.
use rust_rocks.Common.{ℕ, ◌≡◌, refl, true, List, [], ◌∷◌, ◌++◌, length}
use rust_rocks.Ffi.{done, SameCells}
use rust_rocks.Error.{Native}
use rust_rocks.WriteBatch.{Batches, Update, Callback, callback_of, feed}
use rust_rocks.WriteBatch.Handler.{WriteBatchEntry}
use rust_rocks.WriteBatch.Script.{Step, round_trip}
use rust_rocks.WriteBatch.RoundTrip.{round_trip-replay}
use rust_rocks.Tests.Toy.{toy, toy_world, ToyBatch}
use rust_rocks.Tests.Errors.{toy_world-IsHeap}

abbrev toy_rollback : ToyBatch → (ℕ × ℕ) × ToyBatch
toy_rollback (cs, []) = ((1, 0), (cs, []))
toy_rollback (cs, c ∷ sv) = ((0, 0), (c, sv))

toy_rollback-none :
    (b : ToyBatch)
    → b.1 ≡ []
    → ((toy_rollback b).0.0 ≡ 1) × ((toy_rollback b).1.0 ≡ b.0) × ((toy_rollback b).1.1 ≡ [])
toy_rollback-none (cs, []) h = (refl, refl, refl)
toy_rollback-none (cs, c ∷ sv) h = absurd (cc)

toy_rollback-some :
    (b : ToyBatch) (c : List Callback) (cs : List (List Callback))
    → b.1 ≡ c ∷ cs
    → ((toy_rollback b).0.0 ≡ 0) × ((toy_rollback b).1.0 ≡ c) × ((toy_rollback b).1.1 ≡ cs)
toy_rollback-some (ds, []) c cs h = absurd (cc)
toy_rollback-some (ds, d ∷ sv) c cs h = (refl, cc, cc)

abbrev toy_batches : Batches toy
toy_batches = record {
  create = ([], []);
  add = λ u b. (b.0 ++ (callback_of (λ c. c) u ∷ []), b.1);
  clear = λ b. ([], []);
  set_save_point = λ b. (b.0, b.0 ∷ b.1);
  rollback_to_save_point = toy_rollback;
  iterate = λ step go b s. ((0, 0), feed step go b.0 s);
  count = λ b. length b.0;
  data_of = λ b. [];
  has_put = λ b. true;
  has_delete = λ b. true;
  has_single_delete = λ b. true;
  has_delete_range = λ b. true;
  has_merge = λ b. true;
  has_begin_prepare = λ b. true;
  has_end_prepare = λ b. true;
  has_commit = λ b. true;
  has_rollback = λ b. true;
  fits = λ u. true;
  contents = λ b. b.0;
  saved = λ b. b.1;
  contents-create = refl;
  saved-create = refl;
  contents-add = λ u b h. refl;
  saved-add = λ u b h. refl;
  contents-clear = λ b. refl;
  saved-clear = λ b. refl;
  contents-set_save_point = λ b. refl;
  saved-set_save_point = λ b. refl;
  rollback-none = toy_rollback-none;
  rollback-some = toy_rollback-some;
  iterate-feed = λ step go b s. refl;
  code-iterate = λ step go b s h. refl;
}

abbrev script : List Step
script =
    Step.add (Update.put (b'a' ∷ []) [])
    ∷ Step.set_save_point
    ∷ Step.add (Update.delete (b'b' ∷ []))
    ∷ Step.rollback_to_save_point
    ∷ Step.rollback_to_save_point
    ∷ Step.add (Update.merge_cf 1 (b'c' ∷ []) [])
    ∷ []

round_trip-replay_example :
    (w' : Native toy) × (round_trip toy toy_batches script toy_world
      ≡ done
          (true, WriteBatchEntry.put 0 (b'a' ∷ []) [] ∷ WriteBatchEntry.merge 3 (b'c' ∷ []) [] ∷ [])
          w')
    × SameCells toy_world.heap w'.heap
    × (w'.state ≡ toy_world.state)
round_trip-replay_example =
    round_trip-replay toy toy_batches toy_world script _ toy_world-IsHeap refl
