-- ===== src/Options/Chain.antt =====
-- Chains of setters, `X::default().a(1).b(2)`: every setter takes the options by value and gives
-- them back. `Builder` is the interface that each options type meets; what a chain leaves in the
-- native struct is proved here once, for all of them.
use rust_rocks.Common.{
  ◌+◌, ◌≡◌, refl, sym, ap, ◌∙◌, ◌≢◌, none, some, List, [], ◌∷◌, ◌++◌, ◌==◌, Bool-cases, inl, inr,
  fun_ext, arith,
}
use rust_rocks.Ffi.{
  Ptr, World, done, M, pure, and_then, ◌>>=◌, alloc, free, IsHeap, SameCells, update,
}
use rust_rocks.Ffi.Laws.{and_then_assoc}
use rust_rocks.Options.Struct.{Value, Settings, Kind, IsPlain}
use rust_rocks.Options.Assign.{
  IsSafe, IsSafe-plain, after-IsPlain, IsPlainScript, IsPlainScript-append, assign_all, after,
  Changed, assign_all-append, assign_all-Changed,
}

-- An options type of the crate: a raw pointer to a native struct, the setters, and what each is
-- to assign. A script is a chain of setters.
pub record Builder {Obj Field : Type 0} (K : Kind Obj Field) (S Options Setter : Type 0)
    : Type 0 where
  pub raw : Options → Ptr
  pub from_raw : Ptr → Options
  pub raw-from_raw : (p : Ptr) → raw (from_raw p) ≡ p
  pub default : Settings Field → M (World Obj S) Options
  pub default-alloc :
      (d : Settings Field) (w : World Obj S)
      → default d w ≡ and_then (alloc (K.wrap d) w) (λ p w'. done (from_raw p) w')
  pub apply : Setter → Options → M (World Obj S) Options
  pub effects : Setter → List (Field × Value)
  pub effects-plain : (s : Setter) → IsPlainScript K (effects s)
  pub apply-assigns :
      (s : Setter) (o : Options) (w : World Obj S)
      → apply s o w ≡ and_then (assign_all K (effects s) (raw o) w) (λ _ w'. done o w')

module _ {Obj Field S Options Setter : Type 0} {K : Kind Obj Field}
    (B : Builder K S Options Setter) where
  -- What a chain of setters is to assign, in its order.
  abbrev pub effects_of : List Setter → List (Field × Value)
  effects_of [] = []
  effects_of (s ∷ ss) = B.effects s ++ effects_of ss

  pub effects_of-plain : (ss : List Setter) → IsPlainScript K (effects_of ss)
  effects_of-plain [] = tt
  effects_of-plain (s ∷ ss) =
      IsPlainScript-append K (B.effects s) (effects_of ss) (B.effects-plain s) (effects_of-plain ss)

  unfoldable pub chain : List Setter → Options → M (World Obj S) Options
  chain [] o = pure o
  chain (s ∷ ss) o = do o' ← B.apply s o; chain ss o'

  -- `X::default()` and then the setters.
  unfoldable pub build : Settings Field → List Setter → M (World Obj S) Options
  unfolding chain
  build defaults ss = do o ← B.default defaults; chain ss o

  chain-assigns :
      (ss : List Setter) (o : Options) (w : World Obj S)
      → chain ss o w ≡ and_then (assign_all K (effects_of ss) (B.raw o) w) (λ _ w'. done o w')
  unfolding chain assign_all
  chain-assigns [] o w = refl
  chain-assigns (s ∷ ss) o w =
      ap (λ r. and_then r (chain ss)) (B.apply-assigns s o w)
      ∙ and_then_assoc (assign_all K (B.effects s) (B.raw o) w) _ _
      ∙ ap (and_then (assign_all K (B.effects s) (B.raw o) w))
          (fun_ext (λ _. fun_ext (λ w'. chain-assigns ss o w')))
      ∙ sym (assign_all-append K (B.effects s) (effects_of ss) (B.raw o) _ w)

  pub chain-Changed :
      (ss : List Setter) (o : Options) (p : Ptr) (s : Settings Field) (w : World Obj S)
      → B.raw o ≡ p
      → w.heap.cell p ≡ some (K.wrap s)
      → IsSafe K s (effects_of ss)
      → (w' : World Obj S) × (chain ss o w ≡ done o w')
        × Changed K p (after K s (effects_of ss)) w w'
  chain-Changed ss o p s w at here safe =
      let (w', e, c) = assign_all-Changed K (effects_of ss) p s w here safe in
      (w', rw (chain-assigns ss o w, at, e) refl, c)

  free-at :
      (o : Options) (p : Ptr) {x : Obj} (w : World Obj S)
      → B.raw o ≡ p
      → w.heap.cell p ≡ some x
      → free (B.raw o) w
        ≡ done tt (record w { heap = record w.heap { cell = update w.heap.cell p none } })
  free-at o p w at here = rw at (ground (arith, here))

  -- `w'` is `w` with a new native struct, in which every member holds what the last setter of it
  -- gave, or else the default.
  abbrev pub Makes : Settings Field → List Setter → World Obj S → World Obj S → Type 0
  Makes defaults ss w w' =
      (build defaults ss w ≡ done (B.from_raw w.heap.next) w')
      × (w'.heap.cell w.heap.next ≡ some (K.wrap (after K defaults (effects_of ss))))
      × ((q : Ptr) → q ≢ w.heap.next → w'.heap.cell q ≡ w.heap.cell q)

  pub build-Makes :
      (defaults : Settings Field) (ss : List Setter) (w : World Obj S)
      → IsPlain K defaults
      → (w' : World Obj S) × Makes defaults ss w w' × IsPlain K (after K defaults (effects_of ss))
  unfolding build
  build-Makes defaults ss w plain =
      let p : Ptr = w.heap.next in
      let w₁ : World Obj S = record w {
        heap = record { next = p + 1; cell = update w.heap.cell p (some (K.wrap defaults)) };
      } in
      let (w', e, c) =
        chain-Changed ss (B.from_raw p) p defaults w₁ (B.raw-from_raw p) (ground arith)
          (IsSafe-plain K defaults (effects_of ss) plain (effects_of-plain ss)) in
      (
        w',
        (rw (B.default-alloc defaults w) e, c.here, λ q ne. ground (arith, c.others q ne)),
        after-IsPlain K defaults (effects_of ss) plain (effects_of-plain ss),
      )

  -- Besides, the drop of the options gives the struct back.
  abbrev pub Builds :
      (Options → M (World Obj S) (Unit {0})) → Settings Field → List Setter → World Obj S → Type 0
  Builds drop defaults ss w =
      (w' : World Obj S) × Makes defaults ss w w'
      × (w'' : World Obj S) × (drop (B.from_raw w.heap.next) w' ≡ done tt w'')
      × SameCells w.heap w''.heap

  pub build-Builds :
      (drop : Options → M (World Obj S) (Unit {0}))
      → ((o : Options) (s : Settings Field) (w : World Obj S)
          → w.heap.cell (B.raw o) ≡ some (K.wrap s)
          → IsPlain K s
          → drop o w ≡ free (B.raw o) w)
      → (defaults : Settings Field) (ss : List Setter) (w : World Obj S) → IsHeap w.heap
      → IsPlain K defaults
      → Builds drop defaults ss w
  build-Builds drop drop-free defaults ss w is plain =
      let p : Ptr = w.heap.next in
      let (w', (made, here, others), plain') = build-Makes defaults ss w plain in
      (
        w',
        (made, here, others),
        record w' { heap = record w'.heap { cell = update w'.heap.cell p none } },
        drop-free (B.from_raw p) (after K defaults (effects_of ss)) w' (rw (B.raw-from_raw p) here)
              plain'
            ∙ free-at (B.from_raw p) p w' (B.raw-from_raw p) here,
        λ q. elim (Bool-cases (q == p)) [
          | inl same ↦ ground (arith, is.unused p)
          | inr other ↦ ground (arith, others q (λ eq. ground arith))
        ],
      )
