-- ===== src/Db/Opening/Families.antt =====
-- The life of a `DB` that was opened with its column families (`DB::open_with_column_families` of
-- src/db.rs), if the families are dropped before it.
use rust_rocks.Common.{
  ℕ, ◌+◌, ◌<◌, ◌^◌, ◌≡◌, ◌≢◌, refl, true, none, some, List, Bytes, ◌&&◌, ◌==◌, if◌then◌else◌,
  length, map, arith, ap, sym, ◌∙◌, Bool-cases, inl, inr, get_elem?-bound, ltb,
}
use rust_rocks.Ffi.{Ptr, M, ◌>>=◌, ◌>>◌, update, IsHeap}
use rust_rocks.Ffi.Object.{database, db_ref}
use rust_rocks.Engine.{Engine, Call}
use rust_rocks.Error.{Result, Native, drop_status}
use rust_rocks.Db.Family.Lifecycle.{Settled}
use rust_rocks.Db.Opening.Closed.{after_failure, length-map, length-nulls, take-int_count}
use rust_rocks.Db.Opening.{Opener, DbBox, drop_db}
use rust_rocks.Db.Family.{no_nul}
use rust_rocks.Db.Opening.Columns.{
  OpenedFamily, ColumnFamilyDescriptor, open_with_column_families, drop_opened_all, owned_family,
  descriptor, nulls,
}
use rust_rocks.Db.Opening.Filled.{from, destroyed, Filled, fill_lem, Dropped, drop_all_lem}

module _ (E : Engine) (L : Opener E) where
  -- A caller that drops the families, and then the `DB`, as two variables are that are bound in the
  -- order of the pair.
  unfoldable pub let_go_families : Result (DbBox × List OpenedFamily) → M (Native E) (Unit {0})
  unfolding drop_opened_all drop_db drop_status
  let_go_families (Result.ok (db, families)) = drop_opened_all E L families >> drop_db E L db
  let_go_families (Result.err s) = drop_status E s

  -- The database in the end: closed after the handles were destroyed, or as the failed call left it.
  abbrev pub settled : E.Rep × ℕ × List E.Cf × E.Db → E.Db
  settled (st, rep, cs, d) = if E.is_ok st then L.close rep (destroyed E L cs d) else d

module _ (E : Engine) (L : Opener E) (w : Native E) (is : IsHeap w.heap) where
  abbrev with_objects : Native E → ℕ → Native E
  with_objects v rep = record v {
    heap = record {
      next = v.heap.next + 1 + 1;
      cell =
          update (update v.heap.cell v.heap.next (some (database rep))) (v.heap.next + 1)
            (some (db_ref v.heap.next));
    };
  }

  -- The addresses of `cs` hold nothing in the end, and the others what they held.
  ended-SameCells :
      (cs : List E.Cf) (rep : ℕ) (d : E.Db) (v v' : Native E)
      → Filled E L cs (record w { state = d }) v
      → Dropped E L cs w.heap.next (with_objects v rep) v'
      → (q : Ptr) → q ≢ v.heap.next
      → q ≢ v.heap.next + 1
      → v'.heap.cell q ≡ w.heap.cell q
  ended-SameCells cs rep d v v' f g q apart apart' = elim (Bool-cases (ltb q w.heap.next)) [
    | inl low ↦
        g.kept q (λ le. absurd (ground (arith, low, le)))
        ∙ ground (arith, apart, apart')
        ∙ f.below q (ground (arith, low))
    | inr high ↦ elim (Bool-cases (ltb q (w.heap.next + length cs))) [
      | inl inside ↦
          g.gone q (ground (arith, high)) (ground (arith, inside))
          ∙ sym (is.unused q (ground (arith, high)))
      | inr outside ↦
          g.kept q (λ le. ground (arith, outside))
          ∙ ground (arith, apart, apart')
          ∙ f.above q (ground (arith, outside))
    ]
  ]

  -- The families and the `DB` are dropped from the world that the call left.
  end_lem :
      ((c : E.Cf) (d : E.Db) → E.is_ok (E.call (Call.destroy_column_family_handle c) d).0 ≡ true)
      → (cs : List E.Cf) (rep : ℕ) (d : E.Db) (v : Native E)
      → Filled E L cs (record w { state = d }) v
      → Settled E w (L.close rep (destroyed E L cs d)) (
          let_go_families E L
            (Result.ok (
              record { context = v.heap.next + 1 },
              map (owned_family E L (v.heap.next + 1)) (from w.heap.next (length cs)),
            ))
            (with_objects v rep))
  unfolding let_go_families
  end_lem fine cs rep d v f =
      let (v', e, g) =
        drop_all_lem E L fine cs w.heap.next v.heap.next (v.heap.next + 1) rep (with_objects v rep)
          is.positive (omega (arith, f.next)) (omega (arith, f.next)) (ground arith) (ground arith)
          (λ i c h. ground (arith, f.handles i c h, f.next, get_elem?-bound cs i c h)) in
      let hd : v'.heap.cell v.heap.next ≡ some (database rep) =
        g.kept v.heap.next (λ le. omega (arith, f.next)) ∙ ground arith in
      let hc : v'.heap.cell (v.heap.next + 1) ≡ some (db_ref v.heap.next) =
        g.kept (v.heap.next + 1) (λ le. omega (arith, f.next)) ∙ ground arith in
      (
        record {
          heap = record v'.heap {
            cell = update (update v'.heap.cell v.heap.next none) (v.heap.next + 1) none;
          };
          state = L.close rep v'.state;
        },
        rw e (ground (arith, hd, hc)),
        ap (L.close rep) (g.state ∙ ap (destroyed E L cs) f.state),
        λ q. elim (Bool-cases (q == v.heap.next)) [
          | inl at_db ↦ ground (arith, at_db, is.unused q, f.next)
          | inr other ↦ elim (Bool-cases (q == v.heap.next + 1)) [
            | inl at_ref ↦ ground (arith, at_ref, is.unused q, f.next)
            | inr neither ↦
                ground (arith, other, neither)
                ∙ ended-SameCells cs rep d v v' f g q (λ eq. absurd (ground (arith, other, eq)))
                    (λ eq. absurd (ground (arith, neither, eq)))
          ]
        ],
      )

  -- From a heap that meets `IsHeap`, opening a database with column families and letting go of the
  -- families, in their order, and then of the `DB`, leaves no native object behind, whether or not
  -- the engine opens it. The handles are destroyed in the order in which the engine gave them, and
  -- then the database is closed; or it is as the failed call left it. The name is UTF-8 without a
  -- NUL, there are fewer than 2^31 families, and the engine never refuses to destroy a handle.
  pub open_with_column_families-Settled :
      (o : L.Options) (name : Bytes) (cfs : List (ColumnFamilyDescriptor E.CfOptions))
      → (E.is_utf8 name && no_nul name) ≡ true
      → length cfs < 2 ^ 31
      → ((c : E.Cf) (d : E.Db) → E.is_ok (E.call (Call.destroy_column_family_handle c) d).0 ≡ true)
      → Settled E w
          (settled E L (L.open_families o name (map (descriptor E L (L.cf_options o)) cfs) w.state))
          ((open_with_column_families E L o name cfs >>= let_go_families E L) w)
  unfolding open_with_column_families let_go_families
  open_with_column_families-Settled o name cfs ok few fine =
      let ds = map (descriptor E L (L.cf_options o)) cfs in
      let n = length cfs in
      let counted : length ds ≡ n = length-map E L (descriptor E L (L.cf_options o)) cfs in
      let fams = L.open_families o name ds w.state in
      elim (Bool-cases (E.is_ok fams.0)) [
        | inl good ↦
            let (v, filled, f) =
              fill_lem E L fams.2 (nulls E L n) (record w { state = fams.3 })
                (L.length-open_families o name ds w.state good
                  ∙ counted
                  ∙ sym (length-nulls E L n)) in
            rw (ok, take-int_count E L ds n counted few, good, filled)
              (end_lem fine fams.2 fams.1 fams.3 v f)
        | inr bad ↦
            rw (ok, take-int_count E L ds n counted few, bad)
              (
                after_failure E fams.0 fams.3 w,
                ground (arith, is.positive, bad, E.is_ok_iff_code fams.0),
                refl,
                λ p. ground (arith, is.unused p),
              )
      ]
