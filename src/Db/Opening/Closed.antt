-- ===== src/Db/Opening/Closed.antt =====
-- The life of a `DB` of src/db.rs, from the call that opens it to its drop.
use rust_rocks.Common.{
  ℕ, zero, suc, ◌+◌, ◌<◌, ◌^◌, ◌≡◌, refl, Bool, true, false, none, some, List, [], ◌∷◌, Bytes, ◌&&◌,
  if◌then◌else◌, length, take, take-length, map, arith, ap, sym, ◌∙◌, Bool-cases, inl, inr,
}
use rust_rocks.Ffi.{Ptr, Outcome, done, fault, M, ◌>>=◌, ◌>>◌, update, IsHeap}
use rust_rocks.Ffi.Object.{database, db_ref, status, cf_handle}
use rust_rocks.Engine.{Engine}
use rust_rocks.Error.{Result, Native, drop_status, drop_result}
use rust_rocks.Db.Family.Lifecycle.{Settled}
use rust_rocks.Db.Opening.{
  Opener, DbBox, open_db, open_for_readonly, destroy_db, repair_db, and_save, drop_db,
}
use rust_rocks.Db.Family.{no_nul}
use rust_rocks.Db.Opening.Columns.{
  OpenedFamily, ColumnFamilyDescriptor, fill_handles, open_with_column_families, drop_opened_all,
  owned_family, descriptor, int_count, nulls,
}

module _ (E : Engine) (L : Opener E) where
  -- A caller that lets go of what it got.
  unfoldable pub let_go : Result DbBox → M (Native E) (Unit {0})
  unfolding drop_db drop_status
  let_go (Result.ok db) = drop_db E L db
  let_go (Result.err s) = drop_status E s

  -- The drop of `Result<(DB, Vec<ColumnFamily>)>` as one value: the fields of a tuple are dropped in
  -- their order.
  unfoldable pub let_go_all : Result (DbBox × List OpenedFamily) → M (Native E) (Unit {0})
  unfolding drop_db drop_opened_all drop_status
  let_go_all (Result.ok (db, families)) = drop_db E L db >> drop_opened_all E L families
  let_go_all (Result.err s) = drop_status E s

  -- The database in the end: closed again, or as the failed call left it.
  abbrev pub closed : E.Rep × ℕ × E.Db → E.Db
  closed (st, rep, d) = if E.is_ok st then L.close rep d else d

  pub length-map : {A B : Type 0} (f : A → B) (xs : List A) → length (map f xs) ≡ length xs
  length-map f [] = refl
  length-map f (x ∷ xs) = ap suc (length-map f xs)

  pub length-nulls : (n : ℕ) → length (nulls E L n) ≡ n
  length-nulls zero = refl
  length-nulls (suc n) = ap suc (length-nulls n)

  pub take-int_count :
      {A : Type 0} (xs : List A) (n : ℕ)
      → length xs ≡ n
      → n < 2 ^ 31
      → take (int_count E L n) xs ≡ xs
  take-int_count xs n h few =
      let same : int_count E L n ≡ length xs = ground (arith, h, few) in rw same (take-length xs)

-- The world after a `DB` of `rep` was opened and closed, and after the error of a failed call.
abbrev after_life : (E : Engine) → ℕ → E.Db → Native E → Native E
after_life E rep d w = record {
  heap = record {
    next = w.heap.next + 1 + 1;
    cell =
        update
          (update
            (update (update w.heap.cell w.heap.next (some (database rep))) (w.heap.next + 1)
              (some (db_ref w.heap.next)))
            w.heap.next none)
          (w.heap.next + 1) none;
  };
  state = d;
}

abbrev pub after_failure : (E : Engine) → E.Rep → E.Db → Native E → Native E
after_failure E st d w = record {
  heap = record {
    next = w.heap.next + 1;
    cell = update (update w.heap.cell w.heap.next (some (status st))) w.heap.next none;
  };
  state = d;
}

module _ (E : Engine) (L : Opener E) (w : Native E) (is : IsHeap w.heap) where
  -- What is the same in the functions that open, once the engine has answered.
  settle :
      (st : E.Rep) (rep : ℕ) (d : E.Db) (out : Outcome (Native E) (Unit {0}))
      → (E.is_ok st ≡ true → out ≡ done tt (after_life E rep (L.close rep d) w))
      → (E.is_ok st ≡ false → out ≡ done tt (after_failure E st d w))
      → Settled E w (closed E L (st, rep, d)) out
  settle st rep d out life failure = elim (Bool-cases (E.is_ok st)) [
    | inl good ↦ (
      after_life E rep (L.close rep d) w,
      life good,
      ground (arith, good),
      λ p. ground (arith, is.unused p),
    )
    | inr bad ↦
        (after_failure E st d w, failure bad, ground (arith, bad), λ p. ground (arith, is.unused p))
  ]

  -- The same for the functions that only report a status.
  settle_status :
      (st : E.Rep) (d : E.Db) (out : Outcome (Native E) (Unit {0}))
      → (E.is_ok st ≡ true → out ≡ done tt (record w { state = d }))
      → (E.is_ok st ≡ false → out ≡ done tt (after_failure E st d w))
      → Settled E w d out
  settle_status st d out fine failure = elim (Bool-cases (E.is_ok st)) [
    | inl good ↦ (record w { state = d }, fine good, refl, λ p. refl)
    | inr bad ↦ (after_failure E st d w, failure bad, refl, λ p. ground (arith, is.unused p))
  ]

  -- From a heap that meets `IsHeap`, `DB::open` and `DB::open_for_readonly` of a name that is UTF-8
  -- without a NUL, whose result is let go, leave no native object behind, whether or not the engine
  -- opens the database. It is then closed again, or as the failed call left it. `destroy_db` and
  -- `repair_db` leave the database as the engine's call does, and no native object behind.
  pub opened-Settled :
      (o : L.Options) (name : Bytes) (error_if_log_file_exist : Bool)
      → (E.is_utf8 name && no_nul name) ≡ true
      → Settled E w (closed E L (L.open_db o name w.state)) ((open_db E L o name >>= let_go E L) w)
        × Settled E w
            (closed E L (L.open_for_read_only o name error_if_log_file_exist w.state))
            ((open_for_readonly E L o name error_if_log_file_exist >>= let_go E L) w)
        × Settled E w (L.destroy_db name o w.state).1 ((destroy_db E L o name >>= drop_result E) w)
        × Settled E w (L.repair_db name o w.state).1 ((repair_db E L o name >>= drop_result E) w)
  unfolding open_db open_for_readonly destroy_db repair_db let_go and_save drop_result
  opened-Settled o name flag ok =
      let (st, rep, d) = L.open_db o name w.state in
      let (st', rep', d') = L.open_for_read_only o name flag w.state in
      (
        settle st rep d _ (λ good. rw (ok, good) (ground (arith, is.positive)))
            (λ bad. ground (arith, ok, bad, is.positive, E.is_ok_iff_code st)),
        settle st' rep' d' _ (λ good. rw (ok, good) (ground (arith, is.positive)))
            (λ bad. ground (arith, ok, bad, is.positive, E.is_ok_iff_code st')),
        settle_status (L.destroy_db name o w.state).0 _ _ (λ good. ground (arith, ok, good))
            (λ bad.
              ground
                (arith, ok, bad, is.positive, E.is_ok_iff_code (L.destroy_db name o w.state).0)),
        settle_status (L.repair_db name o w.state).0 _ _ (λ good. ground (arith, ok, good))
            (λ bad.
              ground
                (arith, ok, bad, is.positive, E.is_ok_iff_code (L.repair_db name o w.state).0)),
      )

  fill_lem :
      (cs : List E.Cf) (hs : List Ptr) (v : Native E)
      → length cs ≡ length hs
      → (ps : List Ptr) × (v' : Native E) × (fill_handles E L cs hs v ≡ done ps v')
        × (length ps ≡ length hs)
  unfolding fill_handles
  fill_lem [] [] v h = ([], v, refl, refl)
  fill_lem [] (x ∷ hs) v h = absurd (omega arith)
  fill_lem (c ∷ cs) [] v h = absurd (omega arith)
  fill_lem (c ∷ cs) (x ∷ hs) v h =
      let v₁ : Native E = record v {
        heap = record {
          next = v.heap.next + 1;
          cell = update v.heap.cell v.heap.next (some (cf_handle c));
        };
      } in
      let (ps, v', e, n) = fill_lem cs hs v₁ (omega arith) in
      (v.heap.next ∷ ps, v', rw e refl, ground arith)

  -- A `DB` that was just made is dropped, and then the families that refer to it.
  drop_lem :
      (db : Ptr) (rep : ℕ) (ps : List Ptr) (v : Native E)
      → v.heap.cell db ≡ some (database rep)
      → db < v.heap.next
      → 0 < length ps
      → let_go_all E L
          (Result.ok (record { context = v.heap.next }, map (owned_family E L v.heap.next) ps))
          (record v {
            heap = record {
              next = v.heap.next + 1;
              cell = update v.heap.cell v.heap.next (some (db_ref db));
            };
          })
        ≡ fault
  unfolding let_go_all
  drop_lem db rep [] v here low some_ps = absurd (omega arith)
  drop_lem db rep (p ∷ ps) v here low some_ps = ground (arith, here, low)

  -- If the engine opens a database with its column families, then dropping the pair of the `DB` and
  -- the vector of families as one value is a use after free: the `DB` and its `Box<DBRef>` are gone
  -- when the first family asks for its database. There is at least one family and fewer than 2^31;
  -- the name is UTF-8 without a NUL, and the heap meets `IsHeap`.
  pub open_with_column_families-use_after_free :
      (o : L.Options) (name : Bytes) (cf : ColumnFamilyDescriptor E.CfOptions)
      (cfs : List (ColumnFamilyDescriptor E.CfOptions))
      → (E.is_utf8 name && no_nul name) ≡ true
      → length (cf ∷ cfs) < 2 ^ 31
      → E.is_ok
          (L.open_families o name (map (descriptor E L (L.cf_options o)) (cf ∷ cfs)) w.state).0
        ≡ true
      → (open_with_column_families E L o name (cf ∷ cfs) >>= let_go_all E L) w ≡ fault
  unfolding open_with_column_families let_go_all
  open_with_column_families-use_after_free o name cf cfs ok few good =
      let ds = map (descriptor E L (L.cf_options o)) (cf ∷ cfs) in
      let n = length (cf ∷ cfs) in
      let counted : length ds ≡ n = length-map E L (descriptor E L (L.cf_options o)) (cf ∷ cfs) in
      let fams = L.open_families o name ds w.state in
      let (ps, v, filled, count) =
        fill_lem fams.2 (nulls E L n) (record w { state = fams.3 })
          (L.length-open_families o name ds w.state good ∙ counted ∙ sym (length-nulls E L n)) in
      rw (ok, take-int_count E L ds n counted few, good, filled)
        (drop_lem v.heap.next fams.1 ps
          (record v {
            heap = record {
              next = v.heap.next + 1;
              cell = update v.heap.cell v.heap.next (some (database fams.1));
            };
          })
          (ground arith) (omega arith) (omega (arith, count, length-nulls E L n)))
