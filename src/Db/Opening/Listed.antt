-- ===== src/Db/Opening/Listed.antt =====
-- What `DB::list_column_families` of src/db.rs returns and leaves.
use rust_rocks.Common.{
  ℕ, suc, ◌+◌, ◌≡◌, ◌==◌, refl, true, none, some, List, [], ◌∷◌, Bytes, ◌&&◌, length, map, arith,
  ap, ◌∙◌, Bool-cases, inl, inr, ltb,
}
use rust_rocks.Ffi.{Ptr, Outcome, done, update, IsHeap, SameCells}
use rust_rocks.Ffi.Object.{strings}
use rust_rocks.Engine.{Engine}
use rust_rocks.Error.{Result, Native, c_string}
use rust_rocks.Db.Opening.{Opener, map_run}
use rust_rocks.Db.Family.{no_nul}
use rust_rocks.Db.Opening.Names.{list_column_families, read_names, dup_all}
use rust_rocks.Db.Opening.Filled.{from}
use rust_rocks.Db.Opening.Strings.{all_utf8, Chars, Duped, dup_lem, to_strings_lem, free_lem}

module _ (E : Engine) where
  -- All names, and nothing left behind; but for no names, the array of none is left.
  abbrev pub Listed : Native E → List Bytes → Outcome (Native E) (Result (List Bytes)) → Type 0
  Listed w [] out =
      (w' : Native E) × (out ≡ done (Result.ok []) w')
      × (w'.heap.cell w.heap.next ≡ some (strings []))
      × (w'.state ≡ w.state)
  Listed w (f ∷ fs) out =
      (w' : Native E) × (out ≡ done (Result.ok (map c_string (f ∷ fs))) w')
      × SameCells w.heap w'.heap
      × (w'.state ≡ w.state)

module _ (E : Engine) (L : Opener E) (w : Native E) (is : IsHeap w.heap) where
  -- The array of names was released after its strings.
  abbrev released : Native E → Native E
  released v = record v { heap = record v.heap { cell = update v.heap.cell w.heap.next none } }

  -- The world in which the array has been allocated, and that in which it has been filled.
  abbrev allocated : Native E
  allocated = record w {
    heap = record {
      next = w.heap.next + 1;
      cell = update w.heap.cell w.heap.next (some (strings []));
    };
  }

  abbrev filled : List Ptr → Native E → Native E
  filled ps v = record v {
    heap = record v.heap { cell = update v.heap.cell w.heap.next (some (strings ps)) };
  }

  read_names_lem :
      (fs : List Bytes) (f : Bytes) (v : Native E)
      → Duped E L (f ∷ fs) allocated v
      → all_utf8 E L (map c_string (f ∷ fs)) ≡ true
      → (v' : Native E) × (read_names E L w.heap.next
            (suc (length fs))
            (filled (from (w.heap.next + 1) (suc (length fs))) v)
          ≡ done (map c_string (f ∷ fs)) v')
        × SameCells w.heap v'.heap
        × (v'.state ≡ w.state)
  unfolding read_names
  read_names_lem fs f v d valid =
      let n : ℕ = length (f ∷ fs) in
      let p : Ptr = w.heap.next + 1 in
      let u : Native E = filled (from p n) v in
      let names : Chars E L u.heap.cell (p + 0) (f ∷ fs) = λ i x e.
        ground arith ∙ ap v.heap.cell {x = p + 0 + i} {y = p + i} (omega arith) ∙ d.names i x e in
      let (v', e, g) =
        free_lem E L (f ∷ fs) w.heap.next p 0 n u (omega arith) (ground arith) (omega arith)
          names in
      let array : v'.heap.cell w.heap.next ≡ some (strings (from p n)) =
        g.kept w.heap.next (λ low. absurd (omega arith)) ∙ ground arith in
      (
        released v',
        rw
            (to_strings_lem E L (f ∷ fs) w.heap.next p 0 n u (ground arith) (omega arith) names
              valid)
            (ground (arith, is.positive, e, array)),
        λ q. elim (Bool-cases (q == w.heap.next)) [
          | inl here ↦ ground (arith, here, is.unused q)
          | inr there ↦ elim (Bool-cases (ltb q w.heap.next)) [
            | inl low ↦
                ground (arith, there)
                ∙ g.kept q (λ high. absurd (ground (arith, low, high)))
                ∙ ground (arith, there)
                ∙ d.below q (ground (arith, low))
                ∙ ground (arith, there)
            | inr high ↦ elim (Bool-cases (ltb q (p + n))) [
              | inl inside ↦
                  ground (arith, there)
                  ∙ g.gone q (ground (arith, high, there)) (ground (arith, inside))
                  ∙ ground (arith, is.unused q, high)
              | inr above ↦
                  ground (arith, there)
                  ∙ g.kept q (λ _. ground (arith, above))
                  ∙ ground (arith, there)
                  ∙ d.above q (ground (arith, above))
                  ∙ ground (arith, there)
            ]
          ]
        ],
        g.state ∙ d.state,
      )

  list_run :
      (o : L.Options) (name : Bytes) (fams : List Bytes) (ps : List Ptr) (v : Native E)
      → (E.is_utf8 name && no_nul name) ≡ true
      → E.is_ok (L.list_column_families o name w.state).0 ≡ true
      → (L.list_column_families o name w.state).1 ≡ fams
      → dup_all E L fams allocated ≡ done ps v
      → v.heap.cell w.heap.next ≡ some (strings [])
      → list_column_families E L o name w
        ≡ map_run E L (λ _. read_names E L w.heap.next (length fams)) (Result.ok tt) (filled ps v)
  unfolding list_column_families
  list_run o name fams ps v ok good here dup array =
      rw (ok, good, here) (ground (arith, dup, array))

  list_lem :
      (o : L.Options) (name : Bytes) (fams : List Bytes)
      → (E.is_utf8 name && no_nul name) ≡ true
      → E.is_ok (L.list_column_families o name w.state).0 ≡ true
      → (L.list_column_families o name w.state).1 ≡ fams
      → all_utf8 E L (map c_string fams) ≡ true
      → Listed E w fams (list_column_families E L o name w)
  unfolding dup_all read_names
  list_lem o name [] ok good here valid = (
    filled [] allocated,
    list_run o name [] [] allocated ok good here refl (ground arith),
    ground arith,
    refl,
  )
  list_lem o name (f ∷ fs) ok good here valid =
      let (v, e, d) = dup_lem E L (f ∷ fs) allocated in
      let (v', e', same, state) = read_names_lem fs f v d valid in
      (
        v',
        list_run o name (f ∷ fs) (from (w.heap.next + 1) (suc (length fs))) v ok good here e
              (d.below w.heap.next (omega arith) ∙ ground arith)
            ∙ ground (arith, e'),
        same,
        state,
      )

  -- From a heap that meets `IsHeap`, if the engine lists the column families of a name that is UTF-8
  -- without a NUL, and their names up to the first NUL are UTF-8, `DB::list_column_families` returns
  -- these names in the order of the engine, and leaves no native object behind; but if there are
  -- none, it leaves the empty array.
  pub list_column_families-Listed :
      (o : L.Options) (name : Bytes)
      → (E.is_utf8 name && no_nul name) ≡ true
      → E.is_ok (L.list_column_families o name w.state).0 ≡ true
      → all_utf8 E L (map c_string (L.list_column_families o name w.state).1) ≡ true
      → Listed E w (L.list_column_families o name w.state).1 (list_column_families E L o name w)
  list_column_families-Listed o name ok good valid = list_lem o name _ ok good refl valid
