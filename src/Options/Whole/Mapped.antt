-- ===== src/Options/Whole/Mapped.antt =====
-- What `Options::map_db_options`, `map_cf_options` and `new` (src/options.rs) make of options, and
-- which native objects they leave.
use rust_rocks.Common.{
  ◌+◌, ◌<◌, ◌≡◌, ◌≢◌, refl, ◌∙◌, none, some, List, if◌then◌else◌, arith, Bool, true, false,
}
use rust_rocks.Ffi.{Ptr, done, update, IsHeap, M}
use rust_rocks.Options.Struct.{Settings, IsPlain, read_struct}
use rust_rocks.Options.Fields.{DbField, CfField}
use rust_rocks.Options.Objects.{
  OptionsObject, OptionsWorld, db_kind, cf_kind, options, dboptions, cfoptions,
}
use rust_rocks.Options.Assign.{Changed, after, after-IsPlain, IsSafe-plain}
use rust_rocks.Options.Plain.{db_boxes-nil, cf_boxes-nil}
use rust_rocks.Options.Chain.{chain, chain-Changed, effects_of, effects_of-plain}
use rust_rocks.Options.Db.Setters.{DbSetter, db_builder}
use rust_rocks.Options.Cf.Setters.{CfSetter, cf_builder}
use rust_rocks.Options.Db.Object.{DbOptions}
use rust_rocks.Options.Cf.Object.{CfOptions}
use rust_rocks.Options.Whole.{Options, map_db_options, map_cf_options, new}

-- `o'` are new options that hold `d` and `c`, those at `p` are gone, and nothing else changed.
pub record Replaced (p : Ptr) (d : Settings DbField) (c : Settings CfField) (o' : Options)
    (w w' : OptionsWorld) : Type 0 where
  pub here : w'.heap.cell o'.raw ≡ some (options d c)
  pub fresh : w.heap.cell o'.raw ≡ none
  pub gone : w'.heap.cell p ≡ none
  pub others : (q : Ptr) → q ≢ p → q ≢ o'.raw → w'.heap.cell q ≡ w.heap.cell q

-- The rest of `map_db_options` once the function has run, and of `map_cf_options`, at the addresses
-- `p` of the mapped options, `n` of the copy of the others and `n + 1` of the new options.
abbrev rest : OptionsWorld → Ptr → Ptr → Settings DbField → Settings CfField → Bool → OptionsWorld
rest w p old d c mapped_db =
    let n : Ptr = w.heap.next in
    record w {
      heap = record {
        next = n + 1 + 1;
        cell =
            update
              (update
                (update
                  (update
                    (update w.heap.cell n (some (if mapped_db then cfoptions c else dboptions d)))
                    (n + 1) (some (options d c)))
                  n none)
                p none)
              old none;
      };
    }

-- Live objects stand below `next`.
live-lt :
    {w : OptionsWorld} (p : Ptr) {x : OptionsObject}
    → IsHeap w.heap
    → w.heap.cell p ≡ some x
    → p < w.heap.next
live-lt p is here = ground (arith, is.unused p)

-- The world in which the options to be mapped have been copied to `next`.
abbrev copied : OptionsWorld → OptionsObject → OptionsWorld
copied w x = record w {
  heap = record { next = w.heap.next + 1; cell = update w.heap.cell w.heap.next (some x) };
}

-- A function that only changes the copy it is given is mapped.
map_db-step :
    (self : Options) (d d' : Settings DbField) (c : Settings CfField)
    (f : DbOptions → M OptionsWorld DbOptions) (w w₂ : OptionsWorld)
    → IsHeap w.heap
    → w.heap.cell self.raw ≡ some (options d c)
    → IsPlain db_kind d
    → IsPlain cf_kind c
    → f (record { raw = w.heap.next }) (copied w (dboptions d))
      ≡ done (record { raw = w.heap.next }) w₂
    → IsPlain db_kind d'
    → Changed db_kind w.heap.next d' (copied w (dboptions d)) w₂
    → (map_db_options self f w
        ≡ done (record { raw = w₂.heap.next + 1 }) (rest w₂ w.heap.next self.raw d' c true))
      × Replaced self.raw d' c
          (record { raw = w₂.heap.next + 1 })
          w
          (rest w₂ w.heap.next self.raw d' c true)
unfolding map_db_options read_struct
map_db-step self d d' c f w w₂ is here hd hc e hd' changed =
    let low : self.raw < w.heap.next = live-lt self.raw is here in
    let old : w₂.heap.cell self.raw ≡ some (options d c) =
      changed.others self.raw (λ q. absurd (omega arith)) ∙ ground arith in
    (
      ground (
        arith,
        here,
        e,
        old,
        changed.here,
        changed.next,
        db_boxes-nil d hd,
        cf_boxes-nil c hc,
        db_boxes-nil d' hd',
      ),
      record {
        here = ground (arith, changed.next);
        fresh = is.unused _ (omega (arith, changed.next));
        gone = ground arith;
        others = λ q ne new. ground (arith, changed.others q, changed.next, is.unused q);
      },
    )

map_cf-step :
    (self : Options) (d : Settings DbField) (c c' : Settings CfField)
    (f : CfOptions → M OptionsWorld CfOptions) (w w₂ : OptionsWorld)
    → IsHeap w.heap
    → w.heap.cell self.raw ≡ some (options d c)
    → IsPlain db_kind d
    → IsPlain cf_kind c
    → f (record { raw = w.heap.next }) (copied w (cfoptions c))
      ≡ done (record { raw = w.heap.next }) w₂
    → IsPlain cf_kind c'
    → Changed cf_kind w.heap.next c' (copied w (cfoptions c)) w₂
    → (map_cf_options self f w
        ≡ done (record { raw = w₂.heap.next + 1 }) (rest w₂ w.heap.next self.raw d c' false))
      × Replaced self.raw d c'
          (record { raw = w₂.heap.next + 1 })
          w
          (rest w₂ w.heap.next self.raw d c' false)
unfolding map_cf_options read_struct
map_cf-step self d c c' f w w₂ is here hd hc e hc' changed =
    let low : self.raw < w.heap.next = live-lt self.raw is here in
    let old : w₂.heap.cell self.raw ≡ some (options d c) =
      changed.others self.raw (λ q. absurd (omega arith)) ∙ ground arith in
    (
      ground (
        arith,
        here,
        e,
        old,
        changed.here,
        changed.next,
        db_boxes-nil d hd,
        cf_boxes-nil c hc,
        cf_boxes-nil c' hc',
      ),
      record {
        here = ground (arith, changed.next);
        fresh = is.unused _ (omega (arith, changed.next));
        gone = ground arith;
        others = λ q ne new. ground (arith, changed.others q, changed.next, is.unused q);
      },
    )

-- From a heap that meets `IsHeap`, if no member owns a box of a Rust trait object, mapping the database options of options, or their column family
-- options, by a chain of setters makes new options with the members that the chain leaves, and the
-- other half as it was. The old options and all copies are released, and nothing else in the native
-- heap changes.
pub map_options-Replaced :
    (self : Options) (d : Settings DbField) (c : Settings CfField) (ss : List DbSetter)
    (ts : List CfSetter) (w : OptionsWorld)
    → IsHeap w.heap
    → w.heap.cell self.raw ≡ some (options d c)
    → IsPlain db_kind d
    → IsPlain cf_kind c
    → ((o' : Options) × (w' : OptionsWorld) × (map_db_options self (chain db_builder ss) w
          ≡ done o' w')
        × Replaced self.raw (after db_kind d (effects_of db_builder ss)) c o' w w')
      × ((o' : Options) × (w' : OptionsWorld) × (map_cf_options self (chain cf_builder ts) w
            ≡ done o' w')
          × Replaced self.raw d (after cf_kind c (effects_of cf_builder ts)) o' w w')
map_options-Replaced self d c ss ts w is here hd hc =
    let p : Ptr = w.heap.next in
    let (u, e, changed) =
      chain-Changed db_builder ss (record { raw = p }) p d (copied w (dboptions d)) refl
        (ground arith)
        (IsSafe-plain db_kind d (effects_of db_builder ss) hd (effects_of-plain db_builder ss)) in
    let (v, e', changed') =
      chain-Changed cf_builder ts (record { raw = p }) p c (copied w (cfoptions c)) refl
        (ground arith)
        (IsSafe-plain cf_kind c (effects_of cf_builder ts) hc (effects_of-plain cf_builder ts)) in
    let (a, ra) =
      map_db-step self d _ c (chain db_builder ss) w u is here hd hc e
        (after-IsPlain db_kind d (effects_of db_builder ss) hd (effects_of-plain db_builder ss))
        changed in
    let (b, rb) =
      map_cf-step self d c _ (chain cf_builder ts) w v is here hd hc e'
        (after-IsPlain cf_kind c (effects_of cf_builder ts) hc (effects_of-plain cf_builder ts))
        changed' in
    ((record { raw = u.heap.next + 1 }, _, a, ra), (record { raw = v.heap.next + 1 }, _, b, rb))

-- From a heap that meets `IsHeap`, if no member owns a box of a Rust trait object, `Options::new` makes options that hold the members of the
-- database and column family options it is given, and these are released; without them it uses the
-- defaults, and leaves no other native object behind. Nothing else in the native heap changes.
pub new-outcome :
    (d d' : Settings DbField) (c c' : Settings CfField) (db : DbOptions) (cf : CfOptions)
    (w : OptionsWorld)
    → IsHeap w.heap
    → w.heap.cell db.raw ≡ some (dboptions d')
    → w.heap.cell cf.raw ≡ some (cfoptions c')
    → IsPlain db_kind d
    → IsPlain cf_kind c
    → IsPlain db_kind d'
    → IsPlain cf_kind c'
    → ((w' : OptionsWorld) × (new d c (some db) (some cf) w
          ≡ done (record { raw = w.heap.next }) w')
        × (w'.heap.cell w.heap.next ≡ some (options d' c'))
        × (w'.heap.cell db.raw ≡ none)
        × (w'.heap.cell cf.raw ≡ none)
        × ((q : Ptr) → q ≢ w.heap.next → q ≢ db.raw → q ≢ cf.raw → w'.heap.cell q ≡ w.heap.cell q))
      × ((w' : OptionsWorld) × (new d c none none w
            ≡ done (record { raw = w.heap.next + 1 + 1 }) w')
          × (w'.heap.cell (w.heap.next + 1 + 1) ≡ some (options d c))
          × ((q : Ptr) → q ≢ w.heap.next + 1 + 1 → w'.heap.cell q ≡ w.heap.cell q))
unfolding new read_struct
new-outcome d d' c c' db cf w is hd hc pd pc pd' pc' = (
  (
    record w {
      heap = record {
        next = w.heap.next + 1;
        cell =
            update (update (update w.heap.cell w.heap.next (some (options d' c'))) cf.raw none)
              db.raw none;
      };
    },
    ground (
      arith,
      live-lt {w = w} db.raw is hd,
      live-lt {w = w} cf.raw is hc,
      db_boxes-nil d' pd',
      cf_boxes-nil c' pc',
    ),
    ground (arith, live-lt {w = w} db.raw is hd, live-lt {w = w} cf.raw is hc),
    ground arith,
    ground arith,
    λ q a b e. ground arith,
  ),
  (
    record w {
      heap = record {
        next = w.heap.next + 1 + 1 + 1;
        cell =
            update
              (update
                (update
                  (update (update w.heap.cell w.heap.next (some (dboptions d))) (w.heap.next + 1)
                    (some (cfoptions c)))
                  (w.heap.next + 1 + 1) (some (options d c)))
                (w.heap.next + 1) none)
              w.heap.next none;
      };
    },
    ground (arith, db_boxes-nil d pd, cf_boxes-nil c pc),
    ground arith,
    λ q a. ground (arith, is.unused q),
  ),
)
