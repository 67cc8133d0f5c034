-- ===== src/WriteBatch/Holding.antt =====
-- The world while a client builds a batch: the batch lies at its address, everything else in the
-- native heap is as it was, and the database is not touched.
use rust_rocks.Common.{
  ◌+◌, ◌≡◌, refl, ◌≢◌, Option, none, some, List, [], ◌∷◌, arith, inl, inr, Bool-cases, Option-cases,
  ◌∙◌, subst,
}
use rust_rocks.Ffi.{Ptr, Outcome, done, pure, ◌>>=◌, ◌>>◌, IsHeap, update}
use rust_rocks.Ffi.Object.{batch, status}
use rust_rocks.Engine.{Engine}
use rust_rocks.Error.{Native, drop_result}
use rust_rocks.Db.Requests.{family}
use rust_rocks.Db.Glue.{load_cf}
use rust_rocks.WriteBatch.{Batches, Update}
use rust_rocks.WriteBatch.Ops
use rust_rocks.WriteBatch.Raw.{WriteBatch, load_batch}
use rust_rocks.WriteBatch.Ops.{modify}
use rust_rocks.WriteBatch.Script.{
  Step, Held, resolve, handled, apply, step, run, stepped, added, replay, rolled_back,
}

-- The world with the batch `b` at the address `p`.
abbrev pub set_batch : (E : Engine) → Ptr → E.Batch → Native E → Native E
set_batch E p b w = record w {
  heap = record w.heap { cell = update w.heap.cell p (some (batch b)) };
}

pub record Holding (E : Engine) (B : Batches E) (w0 : Native E) (p : Ptr) (h : Held) (w : Native E)
    : Type 0 where
  pub content : E.Batch
  pub here : w.heap.cell p ≡ some (batch content)
  pub others : (q : Ptr) → q ≢ p → w.heap.cell q ≡ w0.heap.cell q
  pub heap : IsHeap w.heap
  pub state : w.state ≡ w0.state
  pub contents : B.contents content ≡ h.0
  pub saved : B.saved content ≡ h.1

some-inj : {A : Type 0} {a b : A} → Option.some a ≡ some b → a ≡ b
some-inj e = cc

module _ (E : Engine) (B : Batches E) (w0 : Native E) (p : Ptr)
    (fresh : w0.heap.cell p ≡ none) where
  abbrev pub handle : WriteBatch
  handle = record { raw = p }

  pub Holding-set_batch :
      (h h' : Held) (w : Native E) (b : E.Batch)
      → Holding E B w0 p h w
      → B.contents b ≡ h'.0
      → B.saved b ≡ h'.1
      → Holding E B w0 p h' (set_batch E p b w)
  Holding-set_batch h h' w b hold c s = record {
    content = b;
    here = ground arith;
    others = λ q ne. ground (arith, hold.others q);
    heap = record {
      positive = hold.heap.positive;
      unused = λ q le. ground (arith, hold.heap.unused q, hold.here);
    };
    state = hold.state;
    contents = c;
    saved = s;
  }

  modify_lem :
      (h : Held) (w : Native E) (f : E.Batch → E.Batch) (hold : Holding E B w0 p h w)
      → modify E B p f w ≡ done tt (set_batch E p (f hold.content) w)
  unfolding modify load_batch
  modify_lem h w f hold = ground (arith, hold.here)

  family_kept :
      (h : Held) (w : Native E) (hold : Holding E B w0 p h w) (q : Ptr) (c : E.Cf)
      → family E w0.heap.cell q ≡ some c
      → load_cf E q w ≡ done c w
  unfolding load_cf
  family_kept h w hold q c found = ground (arith, found, fresh, hold.others q)

  -- An update on the column family that the pointer leads to.
  family_lem :
      (h : Held) (w : Native E) (hold : Holding E B w0 p h w) (q : Ptr) (u : E.Cf → Update E.Cf)
      (u' : Update E.Cf)
      → handled (family E w0.heap.cell q) u ≡ some u'
      → (load_cf E q >>= λ c. modify E B p (B.add (u c)) >> pure handle) w
        ≡ done handle (set_batch E p (B.add u' hold.content) w)
  family_lem h w hold q u u' r = elim (Option-cases (family E w0.heap.cell q)) [
    | inl missing ↦ ground (arith, missing, r)
    | inr (c, there) ↦
        ground (arith, r, there, family_kept h w hold q c there, modify_lem h w (B.add (u c)) hold)
  ]

  plain_lem :
      (h : Held) (w : Native E) (hold : Holding E B w0 p h w) (u u' : Update E.Cf)
      → Option.some u ≡ some u'
      → (modify E B p (B.add u) >> pure handle) w
        ≡ done handle (set_batch E p (B.add u' hold.content) w)
  plain_lem h w hold u u' r = ground (arith, r, modify_lem h w (B.add u) hold)

  apply_lem :
      (h : Held) (w : Native E) (hold : Holding E B w0 p h w) (u : Update Ptr) (u' : Update E.Cf)
      → resolve (family E w0.heap.cell) u ≡ some u'
      → apply E B handle u w ≡ done handle (set_batch E p (B.add u' hold.content) w)
  unfolding apply
  apply_lem h w hold (Update.put k v) u' r =
      unfold Ops.put in plain_lem h w hold (Update.put k v) u' r
  apply_lem h w hold (Update.put_cf q k v) u' r =
      unfold Ops.put_cf in family_lem h w hold q (λ c. Update.put_cf c k v) u' r
  apply_lem h w hold (Update.delete k) u' r =
      unfold Ops.delete in plain_lem h w hold (Update.delete k) u' r
  apply_lem h w hold (Update.delete_cf q k) u' r =
      unfold Ops.delete_cf in family_lem h w hold q (λ c. Update.delete_cf c k) u' r
  apply_lem h w hold (Update.single_delete k) u' r =
      unfold Ops.single_delete in plain_lem h w hold (Update.single_delete k) u' r
  apply_lem h w hold (Update.single_delete_cf q k) u' r =
      unfold Ops.single_delete_cf in family_lem h w hold q (λ c. Update.single_delete_cf c k) u' r
  apply_lem h w hold (Update.delete_range b e) u' r =
      unfold Ops.delete_range in plain_lem h w hold (Update.delete_range b e) u' r
  apply_lem h w hold (Update.delete_range_cf q b e) u' r =
      unfold Ops.delete_range_cf in family_lem h w hold q (λ c. Update.delete_range_cf c b e) u' r
  apply_lem h w hold (Update.merge k v) u' r =
      unfold Ops.merge in plain_lem h w hold (Update.merge k v) u' r
  apply_lem h w hold (Update.merge_cf q k v) u' r =
      unfold Ops.merge_cf in family_lem h w hold q (λ c. Update.merge_cf c k v) u' r
  apply_lem h w hold (Update.put_log_data blob) u' r =
      unfold Ops.put_log_data in plain_lem h w hold (Update.put_log_data blob) u' r

  -- A computation ends in a world that holds `h`.
  abbrev pub Reaches : Held → Outcome (Native E) (Unit {0}) → Type 0
  Reaches h out = (w' : Native E) × (out ≡ done tt w') × Holding E B w0 p h w'

  add-Reaches :
      (h h' : Held) (w : Native E) (hold : Holding E B w0 p h w) (u : Update Ptr) (u' : Update E.Cf)
      → resolve (family E w0.heap.cell) u ≡ some u'
      → added E B (some u') h ≡ some h'
      → Reaches h' (step E B handle (Step.add u) w)
  unfolding step
  add-Reaches (cs, sv) h' w hold u u' r a = elim (Bool-cases (B.fits u')) [
    | inl fit ↦ (
      set_batch E p (B.add u' hold.content) w,
      ground (arith, apply_lem (cs, sv) w hold u u' r),
      Holding-set_batch (cs, sv) h' w (B.add u' hold.content) hold
          (ground (arith, B.contents-add u' hold.content fit, hold.contents, a, fit))
          (ground (arith, B.saved-add u' hold.content fit, hold.saved, a, fit)),
    )
    | inr unfit ↦ absurd (ground (arith, a, unfit))
  ]

  clear-Reaches :
      (h : Held) (w : Native E) (hold : Holding E B w0 p h w)
      → Reaches ([], []) (step E B handle Step.clear w)
  unfolding step Ops.clear
  clear-Reaches h w hold = (
    set_batch E p (B.clear hold.content) w,
    ground (arith, modify_lem h w B.clear hold),
    Holding-set_batch h ([], []) w (B.clear hold.content) hold (B.contents-clear hold.content)
        (B.saved-clear hold.content),
  )

  set_save_point-Reaches :
      (h : Held) (w : Native E) (hold : Holding E B w0 p h w)
      → Reaches (h.0, h.0 ∷ h.1) (step E B handle Step.set_save_point w)
  unfolding step Ops.set_save_point
  set_save_point-Reaches h w hold = (
    set_batch E p (B.set_save_point hold.content) w,
    ground (arith, modify_lem h w B.set_save_point hold),
    Holding-set_batch h (h.0, h.0 ∷ h.1) w (B.set_save_point hold.content) hold
        (B.contents-set_save_point hold.content ∙ hold.contents)
        (ground (arith, B.saved-set_save_point hold.content, hold.contents, hold.saved)),
  )

  -- The world after a rollback that failed and whose error was dropped.
  abbrev after_refusal : E.Rep → Native E → Native E
  after_refusal s w = record w {
    heap = record {
      next = w.heap.next + 1;
      cell = update (update w.heap.cell w.heap.next (some (status s))) w.heap.next none;
    };
  }

  Holding-after_refusal :
      (h : Held) (w : Native E) (s : E.Rep)
      → Holding E B w0 p h w
      → Holding E B w0 p h (after_refusal s w)
  Holding-after_refusal h w s hold = record {
    content = hold.content;
    here = ground (arith, hold.here, hold.heap.unused w.heap.next);
    others = λ q ne. ground (arith, hold.others q ne, hold.heap.unused q);
    heap = record { positive = omega arith; unused = λ q le. ground (arith, hold.heap.unused q) };
    state = hold.state;
    contents = hold.contents;
    saved = hold.saved;
  }

  rollback-Reaches :
      (h : Held) (w : Native E) (hold : Holding E B w0 p h w)
      → Reaches (rolled_back h) (step E B handle Step.rollback_to_save_point w)
  unfolding step Ops.rollback_to_save_point drop_result
  rollback-Reaches (cs, []) w hold =
      let back = B.rollback-none hold.content hold.saved in
      let s = (B.rollback_to_save_point hold.content).0 in
      let b = (B.rollback_to_save_point hold.content).1 in
      (
        after_refusal s (set_batch E p b w),
        ground (arith, hold.here, back.0, E.is_ok_iff_code s, hold.heap.positive),
        Holding-after_refusal (cs, []) (set_batch E p b w) s
            (Holding-set_batch (cs, []) (cs, []) w b hold (back.1 ∙ hold.contents) back.2),
      )
  rollback-Reaches (cs, c ∷ sv) w hold =
      let back = B.rollback-some hold.content c sv hold.saved in
      let s = (B.rollback_to_save_point hold.content).0 in
      let b = (B.rollback_to_save_point hold.content).1 in
      (
        set_batch E p b w,
        ground (arith, hold.here, back.0, E.is_ok_iff_code s),
        Holding-set_batch (cs, c ∷ sv) (c, sv) w b hold back.1 back.2,
      )

  step-Reaches :
      (s : Step) (h h' : Held) (w : Native E) (hold : Holding E B w0 p h w)
      → stepped E B (family E w0.heap.cell) s h ≡ some h'
      → Reaches h' (step E B handle s w)
  step-Reaches (Step.add u) h h' w hold e =
      elim (Option-cases (resolve (family E w0.heap.cell) u)) [
        | inl missing ↦ absurd (ground (arith, missing, e))
        | inr (u', r) ↦ add-Reaches h h' w hold u u' r (rw r at e)
      ]
  step-Reaches Step.clear h h' w hold e =
      subst (λ x. Reaches x (step E B handle Step.clear w)) (some-inj e) (clear-Reaches h w hold)
  step-Reaches Step.set_save_point h h' w hold e =
      subst (λ x. Reaches x (step E B handle Step.set_save_point w)) (some-inj e)
        (set_save_point-Reaches h w hold)
  step-Reaches Step.rollback_to_save_point h h' w hold e =
      subst (λ x. Reaches x (step E B handle Step.rollback_to_save_point w)) (some-inj e)
        (rollback-Reaches h w hold)

  pub run-Reaches :
      (ss : List Step) (h h' : Held) (w : Native E) (hold : Holding E B w0 p h w)
      → replay E B (family E w0.heap.cell) ss h ≡ some h'
      → Reaches h' (run E B ss handle w)
  unfolding run
  run-Reaches [] h h' w hold e = subst (λ x. Reaches x (done tt w)) (some-inj e) (w, refl, hold)
  run-Reaches (s ∷ ss) h h' w hold e =
      elim (Option-cases (stepped E B (family E w0.heap.cell) s h)) [
        | inl missing ↦ absurd (ground (arith, missing, e))
        | inr (h1, r) ↦
            let (w1, o, hold1) = step-Reaches s h h1 w hold r in
            let (w2, o2, hold2) = run-Reaches ss h1 h' w1 hold1 (rw r at e) in
            (w2, ground (arith, o, o2), hold2)
      ]
