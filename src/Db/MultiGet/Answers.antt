-- ===== src/Db/MultiGet/Answers.antt =====
-- What the caller of `multi_get` gets for each key, and what is left in the native heap.
use rust_rocks.Common.{
  ◌+◌, ◌≡◌, refl, ◌∙◌, Option, none, some, List, [], ◌∷◌, Bytes, length, arith, Option-cases, inl,
  inr, map,
}
use rust_rocks.Ffi.{Ptr, Outcome, done, M, ◌>>=◌, IsHeap, SameCells}
use rust_rocks.Engine.{Engine}
use rust_rocks.Error.{Native}
use rust_rocks.Db.Glue.{load_cf}
use rust_rocks.Db.Requests.{Cells, family}
use rust_rocks.Db.Read.Lookup.{Answer}
use rust_rocks.Db.Family.{ColumnFamily}
use rust_rocks.Db.MultiGet.{
  fill, results, multi_get, multi_get_cf, family_multi_get, pair_up, load_each,
}
use rust_rocks.Db.MultiGet.Slots.{
  Reply, filled, emptied, with_cells, Has-filled, filled-above, filled-below, emptied-filled,
  fill_lem, results_lem, look_all, look_all_lem, answers,
}

module _ (E : Engine) where
  -- The call gave `as'`, changed nothing in the database, and leaked and lost nothing.
  abbrev pub AllAnswered : Native E → List Answer → Outcome (Native E) (List Answer) → Type 0
  AllAnswered w as' out =
      (w' : Native E) × (out ≡ done as' w') × (w'.state ≡ w.state) × SameCells w.heap w'.heap

  length-answers :
      (xs : List (Reply E)) (as' : List Answer) → answers E xs ≡ some as' → length as' ≡ length xs
  length-answers [] as' h = ground (arith, h)
  length-answers (x ∷ xs) as' h = elim (Option-cases (answers E xs)) [
    | inl strange ↦ absurd (ground (arith, h, strange))
    | inr (rest, more) ↦ ground (arith, h, more, length-answers xs rest more)
  ]

  -- Where the handles are there, each key goes to the family of the handle at its place.
  abbrev pub cons_named :
      Option E.Cf → Bytes → Option (List (E.Cf × Bytes)) → Option (List (E.Cf × Bytes))
  cons_named (some c) k (some ks) = some ((c, k) ∷ ks)
  cons_named _ k _ = none

  abbrev pub named : Cells E → List Ptr → List Bytes → Option (List (E.Cf × Bytes))
  named h cfs [] = some []
  named h [] (k ∷ ks) = none
  named h (p ∷ cfs) (k ∷ ks) = cons_named (family E h p) k (named h cfs ks)

module _ (E : Engine) (w : Native E) (is : IsHeap w.heap) where
  -- The end of each call: what the engine answered is filled in, made into results, and looked at.
  abbrev finish : List (Reply E) → M (Native E) (List Answer)
  finish xs = do s ← fill E xs; rs ← results E s; look_all E rs

  finish-AllAnswered :
      (xs : List (Reply E)) (as' : List Answer)
      → answers E xs ≡ some as'
      → AllAnswered E w as' (finish xs w)
  finish-AllAnswered xs as' known =
      let p = w.heap.next in
      let v = with_cells E w (p + length xs) (filled E w.heap.cell p xs) in
      (
        with_cells E w (p + length xs) (emptied E (filled E w.heap.cell p xs) p xs),
        ground (
          arith,
          is.positive,
          fill_lem E xs w is.positive,
          results_lem E xs p v is.positive (Has-filled E w.heap.cell p xs),
          look_all_lem E xs p v as' is.positive (Has-filled E w.heap.cell p xs) known,
        ),
        refl,
        emptied-filled E w.heap.cell (filled E w.heap.cell p xs) p xs is.unused
            (λ q lt. filled-below E w.heap.cell p q xs lt)
            (λ q le. filled-above E w.heap.cell p q xs le ∙ is.unused q (omega (arith, le))),
      )

  pair_up_lem :
      (cfs : List Ptr) (keys : List Bytes) (ks : List (E.Cf × Bytes))
      → named E w.heap.cell cfs keys ≡ some ks
      → ((ps : List (Ptr × Bytes)) × (pair_up E cfs keys w ≡ done ps w)
          × (load_each E ps w ≡ done ks w))
  unfolding pair_up load_each load_cf
  pair_up_lem cfs [] ks h = ([], ground arith, ground (arith, h))
  pair_up_lem [] (k ∷ keys) ks h = absurd cc
  pair_up_lem (p ∷ cfs) (k ∷ keys) ks h = elim (Option-cases (named E w.heap.cell cfs keys)) [
    | inl missing ↦ absurd (ground (arith, h, missing))
    | inr (rest, more) ↦ elim (Option-cases (family E w.heap.cell p)) [
      | inl missing ↦ absurd (ground (arith, h, missing))
      | inr (c, here) ↦
          let (ps, paired, loaded) = pair_up_lem cfs keys rest more in
          ((p, k) ∷ ps, ground (arith, paired), ground (arith, h, more, here, loaded))
    ]
  ]

  -- From a heap that meets `IsHeap`, and if the engine's codes are known to `Code`, `multi_get`
  -- gives each key, in order, what the engine answers for it: the value, or an error that reads as
  -- the code of the engine's status. When the caller has looked at all of them and let them go,
  -- the native heap holds what it held before.
  pub multi_get-AllAnswered :
      (o : E.ReadOptions) (keys : List Bytes) (as' : List Answer)
      → answers E (E.multi_get o keys w.state) ≡ some as'
      → AllAnswered E w as' ((multi_get E o keys >>= look_all E) w) × (length as' ≡ length keys)
  unfolding multi_get
  multi_get-AllAnswered o keys as' known =
      let xs = E.multi_get o keys w.state in
      let (w', out, same, cells) = finish-AllAnswered xs as' known in
      (
        (w', ground (arith, out), same, cells),
        length-answers E xs as' known ∙ E.length-multi_get o keys w.state,
      )

  -- From a heap that meets `IsHeap`, if the engine's codes are known to `Code` and the handles are
  -- there and at least as many as the keys, `multi_get_cf` gives each key, in order, what the
  -- engine answers for it in the column family whose handle has the place of the key. When the
  -- caller has let all results go, the native heap holds what it held before.
  pub multi_get_cf-AllAnswered :
      (o : E.ReadOptions) (cfs : List Ptr) (keys : List Bytes) (ks : List (E.Cf × Bytes))
      (as' : List Answer)
      → named E w.heap.cell cfs keys ≡ some ks
      → answers E (E.multi_get_cf o ks w.state) ≡ some as'
      → AllAnswered E w as' ((multi_get_cf E o cfs keys >>= look_all E) w)
  unfolding multi_get_cf
  multi_get_cf-AllAnswered o cfs keys ks as' there known =
      let (ps, paired, loaded) = pair_up_lem cfs keys ks there in
      let (w', out, same, cells) = finish-AllAnswered (E.multi_get_cf o ks w.state) as' known in
      (w', ground (arith, paired, loaded, out), same, cells)

  load_same_lem :
      (p : Ptr) (c : E.Cf) (keys : List Bytes)
      → family E w.heap.cell p ≡ some c
      → load_each E (map (λ k. (p, k)) keys) w ≡ done (map (λ k. (c, k)) keys) w
  unfolding load_each load_cf
  load_same_lem p c [] h = refl
  load_same_lem p c (k ∷ keys) h = ground (arith, h, load_same_lem p c keys h)

  -- From a heap that meets `IsHeap`, if the engine's codes are known to `Code` and the handle
  -- leads to the column family `c`, `ColumnFamily::multi_get` gives each key, in order, what the
  -- engine answers for it in `c`. When the caller has let all results go, the native heap holds
  -- what it held before.
  pub family_multi_get-AllAnswered :
      (cf : ColumnFamily) (c : E.Cf) (o : E.ReadOptions) (keys : List Bytes) (as' : List Answer)
      → family E w.heap.cell cf.handle.raw ≡ some c
      → answers E (E.multi_get_cf o (map (λ k. (c, k)) keys) w.state) ≡ some as'
      → AllAnswered E w as' ((family_multi_get E cf o keys >>= look_all E) w)
  unfolding family_multi_get
  family_multi_get-AllAnswered cf c o keys as' there known =
      let xs = E.multi_get_cf o (map (λ k. (c, k)) keys) w.state in
      let (w', out, same, cells) = finish-AllAnswered xs as' known in
      (w', ground (arith, load_same_lem cf.handle.raw c keys there, out), same, cells)

  -- From a heap that meets `IsHeap`, if the engine's codes are known to `Code` and the handles are
  -- there and at least as many as the keys, `multi_get_cf` gives each key, in order, what the
  -- engine answers for it in the column family whose handle has the place of the key, and
  -- `ColumnFamily::multi_get` what it answers in the column family `c` that its own handle leads
  -- to. When the caller has let all results go, the native heap holds what it held before.
  pub families_multi_get-AllAnswered :
      (o : E.ReadOptions) (cfs : List Ptr) (cf : ColumnFamily) (c : E.Cf) (keys : List Bytes)
      (ks : List (E.Cf × Bytes)) (as' bs : List Answer)
      → named E w.heap.cell cfs keys ≡ some ks
      → family E w.heap.cell cf.handle.raw ≡ some c
      → answers E (E.multi_get_cf o ks w.state) ≡ some as'
      → answers E (E.multi_get_cf o (map (λ k. (c, k)) keys) w.state) ≡ some bs
      → AllAnswered E w as' ((multi_get_cf E o cfs keys >>= look_all E) w)
        × AllAnswered E w bs ((family_multi_get E cf o keys >>= look_all E) w)
  families_multi_get-AllAnswered o cfs cf c keys ks as' bs there here known known' = (
    multi_get_cf-AllAnswered o cfs keys ks as' there known,
    family_multi_get-AllAnswered cf c o keys bs here known',
  )
