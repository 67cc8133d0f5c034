-- ===== src/Tests/Toy.antt =====
-- An engine that meets the laws of `Engine`: a status is its code and subcode, the database is the
-- list of the calls made to it, the latest first. Deleting a file named by no bytes fails, and so does
-- destroying a handle of the column family 0, which is what a creation by the empty name gives.
use rust_rocks.Common.{
  ℕ, zero, suc, ◌≡◌, refl, ap, true, Option, none, some, List, [], ◌∷◌, Bytes, ◌==◌, length,
  if◌then◌else◌,
}
use rust_rocks.Ffi.{World, Ptr}
use rust_rocks.Ffi.Object.{Object, cf_handle}
use rust_rocks.Engine.{Engine, Call}
use rust_rocks.WriteBatch.{Callback}

-- The batch of the toy engine: the callbacks that it will make, and those at its save points.
abbrev pub ToyBatch : Type 0
ToyBatch = List Callback × List (List Callback)

abbrev pub ToyCall : Type 0
ToyCall = Call ℕ ℕ ℕ ℕ ToyBatch

abbrev pub toy_status : ToyCall → ℕ × ℕ
toy_status (Call.delete_file []) = (1, 0)
toy_status (Call.destroy_column_family_handle c) = if c == 0 then (4, 0) else (0, 0)
toy_status _ = (0, 0)

-- A key is found with itself as its value, unless it is empty.
abbrev pub toy_get : Bytes → (ℕ × ℕ) × Bytes
toy_get [] = ((1, 0), [])
toy_get (b ∷ bs) = ((0, 0), b ∷ bs)

abbrev pub toy_gets : {A : Type 0} → (A → Bytes) → List A → List ((ℕ × ℕ) × Bytes)
toy_gets key [] = []
toy_gets key (a ∷ as') = toy_get (key a) ∷ toy_gets key as'

pub length-toy_gets :
    {A : Type 0} (key : A → Bytes) (ks : List A) → length (toy_gets key ks) ≡ length ks
length-toy_gets key [] = refl
length-toy_gets key (k ∷ ks) = ap suc (length-toy_gets key ks)

-- Snapshots are given as long as nothing was called.
abbrev pub toy_snapshot : List ToyCall → Option ℕ
toy_snapshot [] = some 5
toy_snapshot (c ∷ d) = none

abbrev pub toy : Engine
toy = record {
  Rep = ℕ × ℕ;
  is_ok = λ s. s.0 == 0;
  code = λ s. s.0;
  subcode = λ s. s.1;
  get_state = λ s. none;
  invalid_argument = λ msg. (4, 0);
  is_utf8 = λ s. true;
  Db = List ToyCall;
  Cf = ℕ;
  Snap = ℕ;
  WriteOptions = ℕ;
  ReadOptions = ℕ;
  FlushOptions = ℕ;
  RangeOptions = ℕ;
  CfOptions = ℕ;
  Batch = ToyBatch;
  call = λ c d. (toy_status c, c ∷ d);
  default_column_family = λ d. 0;
  create_column_family = λ o name d. ((0, 0), length name, d);
  cf_name = λ c. [];
  cf_id = λ c. c;
  get = λ o c k d. toy_get k;
  multi_get = λ o ks d. toy_gets (λ k. k) ks;
  multi_get_cf = λ o ks d. toy_gets (λ k. k.1) ks;
  key_may_exist = λ o k d. (true, true, k);
  key_may_exist_cf = λ o c k d. (true, true, k);
  key_may_exist_cf_null = λ o c k d. some true;
  get_property = λ p d. some p;
  get_property_cf = λ c p d. some p;
  get_int_property = λ p d. some 1;
  get_int_property_cf = λ c p d. some 1;
  get_snapshot = λ d. (toy_snapshot d, d);
  release_snapshot = λ s d. d;
  snapshot_sequence = λ s. s;
  is_ok_iff_code = λ s. refl;
  code-invalid_argument = λ msg. refl;
  subcode-invalid_argument = λ msg. refl;
  length-multi_get = λ o ks d. length-toy_gets (λ k. k) ks;
  length-multi_get_cf = λ o ks d. length-toy_gets (λ k. k.1) ks;
}

-- A handle of the column family 3 at address 1.
abbrev pub toy_cells : Ptr → Option (Object (ℕ × ℕ) ℕ ℕ ToyBatch)
toy_cells zero = none
toy_cells (suc zero) = some (cf_handle 3)
toy_cells (suc (suc p)) = none

abbrev pub toy_world : World (Object (ℕ × ℕ) ℕ ℕ ToyBatch) (List ToyCall)
toy_world = record { heap = record { next = 2; cell = toy_cells }; state = [] }
