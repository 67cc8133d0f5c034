-- ===== src/Db/Opening/Filled.antt =====
-- The handles that `DB::open_with_column_families` of src/db.rs makes, from the loop that fills the
-- array to the drop of the families.
use rust_rocks.Common.{
  ℕ, zero, suc, ◌+◌, ◌<◌, ◌≤◌, ◌≡◌, refl, true, Option, none, some, List, [], ◌∷◌, ◌==◌, length,
  map, arith, ap, ◌∙◌, Bool-cases, inl, inr, get_elem?,
}
use rust_rocks.Ffi.{Ptr, done, update}
use rust_rocks.Ffi.Object.{Object, database, db_ref, cf_handle}
use rust_rocks.Engine.{Engine, Call}
use rust_rocks.Error.{Native}
use rust_rocks.Db.Opening.{Opener}
use rust_rocks.Db.Opening.Columns.{fill_handles, drop_opened, drop_opened_all, owned_family}

-- The addresses from `p` on.
abbrev pub from : Ptr → ℕ → List Ptr
from p zero = []
from p (suc n) = p ∷ from (p + 1) n

module _ (E : Engine) (L : Opener E) where
  abbrev Cells : Type 0
  Cells = Ptr → Option (Object E.Rep E.Cf E.Snap E.Batch)

  -- Handles of `cs` at the addresses from `p` on.
  abbrev pub Handles : Cells → Ptr → List E.Cf → Type 0
  Handles h p cs = (i : ℕ) (c : E.Cf) → get_elem? cs i ≡ some c → h (p + i) ≡ some (cf_handle c)

  -- The engine after the handles of `cs` were destroyed, in their order.
  abbrev pub destroyed : List E.Cf → E.Db → E.Db
  destroyed [] d = d
  destroyed (c ∷ cs) d = destroyed cs (E.call (Call.destroy_column_family_handle c) d).1

  -- What `fill_handles` leaves.
  pub record Filled (cs : List E.Cf) (v v' : Native E) : Type 0 where
    pub handles : Handles v'.heap.cell v.heap.next cs
    pub next : v'.heap.next ≡ v.heap.next + length cs
    pub state : v'.state ≡ v.state
    pub below : (q : Ptr) → q < v.heap.next → v'.heap.cell q ≡ v.heap.cell q
    pub above : (q : Ptr) → v.heap.next + length cs ≤ q → v'.heap.cell q ≡ v.heap.cell q

  Handles-cons :
      (h : Cells) (p : Ptr) (c : E.Cf) (cs : List E.Cf)
      → h p ≡ some (cf_handle c)
      → Handles h (p + 1) cs
      → Handles h p (c ∷ cs)
  Handles-cons h p c cs here rest zero x e = ground (arith, here, e)
  Handles-cons h p c cs here rest (suc i) x e =
      ap h {x = p + suc i} {y = p + 1 + i} (omega arith) ∙ rest i x e

  pub fill_lem :
      (cs : List E.Cf) (hs : List Ptr) (v : Native E)
      → length cs ≡ length hs
      → (v' : Native E) × (fill_handles E L cs hs v ≡ done (from v.heap.next (length cs)) v')
        × Filled cs v v'
  unfolding fill_handles
  fill_lem [] [] v h = (
    v,
    refl,
    record {
      handles = λ i c e. absurd cc;
      next = omega arith;
      state = refl;
      below = λ q lt. refl;
      above = λ q le. refl;
    },
  )
  fill_lem [] (x ∷ hs) v h = absurd (omega arith)
  fill_lem (c ∷ cs) [] v h = absurd (omega arith)
  fill_lem (c ∷ cs) (x ∷ hs) v h =
      let p : Ptr = v.heap.next in
      let v₁ : Native E = record v {
        heap = record { next = p + 1; cell = update v.heap.cell p (some (cf_handle c)) };
      } in
      let (v', e, f) = fill_lem cs hs v₁ (omega arith) in
      (
        v',
        rw e refl,
        record {
          handles =
              Handles-cons v'.heap.cell p c cs (f.below p (omega arith) ∙ ground arith) f.handles;
          next = omega (arith, f.next);
          state = f.state;
          below = λ q lt. f.below q (omega arith) ∙ ground arith;
          above = λ q le. f.above q (omega arith) ∙ ground arith;
        },
      )

  -- What the drop of the families leaves, if the engine destroys every handle.
  pub record Dropped (cs : List E.Cf) (p : Ptr) (v v' : Native E) : Type 0 where
    pub state : v'.state ≡ destroyed cs v.state
    pub gone : (q : Ptr) → p ≤ q → q < p + length cs → v'.heap.cell q ≡ none
    pub kept : (q : Ptr) → (p ≤ q → p + length cs ≤ q) → v'.heap.cell q ≡ v.heap.cell q

  -- The world after the handle at `p`, of `c`, was destroyed.
  abbrev after_drop : Ptr → E.Cf → Native E → Native E
  after_drop p c v = record v {
    heap = record v.heap { cell = update v.heap.cell p none };
    state = (E.call (Call.destroy_column_family_handle c) v.state).1;
  }

  drop_one_lem :
      (p db context : Ptr) (rep : ℕ) (c : E.Cf) (v : Native E)
      → E.is_ok (E.call (Call.destroy_column_family_handle c) v.state).0 ≡ true
      → v.heap.cell db ≡ some (database rep)
      → v.heap.cell context ≡ some (db_ref db)
      → v.heap.cell p ≡ some (cf_handle c)
      → drop_opened E L (owned_family E L context p) v ≡ done tt (after_drop p c v)
  unfolding drop_opened
  drop_one_lem p db context rep c v fine hd hc here = ground (arith, fine, hd, hc, here)

  pub drop_all_lem :
      ((c : E.Cf) (d : E.Db) → E.is_ok (E.call (Call.destroy_column_family_handle c) d).0 ≡ true)
      → (cs : List E.Cf) (p db context : Ptr) (rep : ℕ) (v : Native E) → 0 < p
      → p + length cs ≤ db
      → p + length cs ≤ context
      → v.heap.cell db ≡ some (database rep)
      → v.heap.cell context ≡ some (db_ref db)
      → Handles v.heap.cell p cs
      → (v' : Native E) × (drop_opened_all E L
            (map (owned_family E L context) (from p (length cs)))
            v
          ≡ done tt v')
        × Dropped cs p v v'
  unfolding drop_opened_all
  drop_all_lem fine [] p db context rep v pos ld lc hd hc hs = (
    v,
    refl,
    record { state = refl; gone = λ q le lt. absurd (omega arith); kept = λ q out. refl },
  )
  drop_all_lem fine (c ∷ cs) p db context rep v pos ld lc hd hc hs =
      let v₁ : Native E = after_drop p c v in
      let here : v.heap.cell p ≡ some (cf_handle c) =
        ap v.heap.cell {x = p} {y = p + 0} (omega arith) ∙ hs 0 c refl in
      let (v', e, f) =
        drop_all_lem fine cs (p + 1) db context rep v₁ (omega arith) (omega arith) (omega arith)
          (ground (arith, hd)) (ground (arith, hc))
          (λ i x h.
            ground arith
            ∙ ap v.heap.cell {x = p + 1 + i} {y = p + suc i} (omega arith)
            ∙ hs (suc i) x h) in
      (
        v',
        rw (drop_one_lem p db context rep c v (fine c v.state) hd hc here) e,
        record {
          state = f.state;
          gone = λ q le lt. elim (Bool-cases (q == p)) [
            | inl same ↦ f.kept q (λ low. absurd (ground (arith, same, low))) ∙ ground (arith, same)
            | inr other ↦ f.gone q (ground (arith, other, le)) (omega (arith, lt))
          ];
          kept = λ q out. f.kept q (λ low. ground (arith, out, low)) ∙ ground (arith, out);
        },
      )
