-- ===== src/Db/Opening/Strings.antt =====
-- The array of names that `rocks_db_list_column_families` of rocks-sys/rocks/db.cc makes: how it is
-- filled, read by src/db.rs, and released.
use rust_rocks.Common.{
  ℕ, zero, suc, ◌+◌, ◌<◌, ◌≤◌, ◌≡◌, refl, Bool, true, Option, none, some, List, [], ◌∷◌, Bytes,
  ◌&&◌, ◌==◌, length, map, arith, ap, ◌∙◌, Bool-cases, inl, inr, get_elem?,
}
use rust_rocks.Ffi.{Ptr, done, update}
use rust_rocks.Ffi.Object.{Object, strings, chars}
use rust_rocks.Engine.{Engine}
use rust_rocks.Error.{Native, c_string}
use rust_rocks.Db.Opening.{Opener}
use rust_rocks.Db.Opening.Names.{dup_all, load_at, free_from, to_strings}
use rust_rocks.Db.Opening.Filled.{from}

pub from-get_elem? : (p : Ptr) (i n : ℕ) → i < n → get_elem? (from p n) i ≡ some (p + i)
from-get_elem? p i zero lt = absurd (omega arith)
from-get_elem? p zero (suc n) lt = ap some (omega arith)
from-get_elem? p (suc i) (suc n) lt =
    from-get_elem? (p + 1) i n (omega arith) ∙ ap some {x = p + 1 + i} {y = p + suc i} (omega arith)

and_true_left : (a b : Bool) → (a && b) ≡ true → a ≡ true
and_true_left a b h = ground (arith, h)

and_true_right : (a b : Bool) → (a && b) ≡ true → b ≡ true
and_true_right a b h = ground (arith, h)

module _ (E : Engine) (L : Opener E) where
  -- Whether the names can be Rust strings.
  unfoldable pub all_utf8 : List Bytes → Bool
  all_utf8 [] = true
  all_utf8 (s ∷ ss) = E.is_utf8 s && all_utf8 ss

  abbrev Cells : Type 0
  Cells = Ptr → Option (Object E.Rep E.Cf E.Snap E.Batch)

  -- C strings of the names at the addresses from `p` on.
  abbrev pub Chars : Cells → Ptr → List Bytes → Type 0
  Chars h p fs =
      (i : ℕ) (f : Bytes) → get_elem? fs i ≡ some f → h (p + i) ≡ some (chars (c_string f))

  -- What `dup_all` leaves.
  pub record Duped (fs : List Bytes) (v v' : Native E) : Type 0 where
    pub names : Chars v'.heap.cell v.heap.next fs
    pub state : v'.state ≡ v.state
    pub below : (q : Ptr) → q < v.heap.next → v'.heap.cell q ≡ v.heap.cell q
    pub above : (q : Ptr) → v.heap.next + length fs ≤ q → v'.heap.cell q ≡ v.heap.cell q

  Chars-cons :
      (h : Cells) (p : Ptr) (f : Bytes) (fs : List Bytes)
      → h p ≡ some (chars (c_string f))
      → Chars h (p + 1) fs
      → Chars h p (f ∷ fs)
  Chars-cons h p f fs here rest zero x e = ground (arith, here, e)
  Chars-cons h p f fs here rest (suc i) x e =
      ap h {x = p + suc i} {y = p + 1 + i} (omega arith) ∙ rest i x e

  Chars-head :
      (h : Cells) (p : Ptr) (f : Bytes) (fs : List Bytes)
      → Chars h p (f ∷ fs)
      → h p ≡ some (chars (c_string f))
  Chars-head h p f fs at = ap h {x = p} {y = p + 0} (omega arith) ∙ at 0 f refl

  Chars-tail :
      (h : Cells) (p q : Ptr) (f : Bytes) (fs : List Bytes)
      → q ≡ p + 1
      → Chars h p (f ∷ fs)
      → Chars h q fs
  Chars-tail h p q f fs next at i x e =
      ap h {x = q + i} {y = p + suc i} (omega (arith, next)) ∙ at (suc i) x e

  pub dup_lem :
      (fs : List Bytes) (v : Native E)
      → (v' : Native E) × (dup_all E L fs v ≡ done (from v.heap.next (length fs)) v')
        × Duped fs v v'
  unfolding dup_all
  dup_lem [] v = (
    v,
    refl,
    record { names = λ i f e. absurd cc; state = refl; below = λ q lt. refl; above = λ q le. refl },
  )
  dup_lem (f ∷ fs) v =
      let p : Ptr = v.heap.next in
      let v₁ : Native E = record v {
        heap = record { next = p + 1; cell = update v.heap.cell p (some (chars (c_string f))) };
      } in
      let (v', e, d) = dup_lem fs v₁ in
      (
        v',
        rw e refl,
        record {
          names = Chars-cons v'.heap.cell p f fs (d.below p (omega arith) ∙ ground arith) d.names;
          state = d.state;
          below = λ q lt. d.below q (omega arith) ∙ ground arith;
          above = λ q le. d.above q (omega arith) ∙ ground arith;
        },
      )

  load_at_lem :
      (list p : Ptr) (i n : ℕ) (v : Native E)
      → v.heap.cell list ≡ some (strings (from p n))
      → i < n
      → load_at E L list i v ≡ done (p + i) v
  unfolding load_at
  load_at_lem list p i n v here lt = ground (arith, here, from-get_elem? p i n lt)

  to_strings_step_lem :
      (list q : Ptr) (i k : ℕ) (s : Bytes) (ss : List Bytes) (v : Native E)
      → load_at E L list i v ≡ done q v
      → v.heap.cell q ≡ some (chars s)
      → E.is_utf8 s ≡ true
      → to_strings E L list (i + 1) k v ≡ done ss v
      → to_strings E L list i (suc k) v ≡ done (s ∷ ss) v
  unfolding to_strings
  to_strings_step_lem list q i k s ss v at here valid rest =
      rw at (ground (arith, here, valid, rest))

  -- The loop that reads the names changes nothing.
  pub to_strings_lem :
      (fs : List Bytes) (list p : Ptr) (i n : ℕ) (v : Native E)
      → v.heap.cell list ≡ some (strings (from p n))
      → i + length fs ≤ n
      → Chars v.heap.cell (p + i) fs
      → all_utf8 (map c_string fs) ≡ true
      → to_strings E L list i (length fs) v ≡ done (map c_string fs) v
  unfolding to_strings all_utf8
  to_strings_lem [] list p i n v here le at valid = refl
  to_strings_lem (f ∷ fs) list p i n v here le at valid =
      let rest =
        to_strings_lem fs list p (i + 1) n v here (omega arith)
          (Chars-tail v.heap.cell (p + i) (p + (i + 1)) f fs (omega arith) at)
          (and_true_right (E.is_utf8 (c_string f)) (all_utf8 (map c_string fs)) valid) in
      to_strings_step_lem list (p + i) i (length fs) (c_string f) (map c_string fs) v
        (load_at_lem list p i n v here (omega arith)) (Chars-head v.heap.cell (p + i) f fs at)
        (and_true_left (E.is_utf8 (c_string f)) (all_utf8 (map c_string fs)) valid) rest

  -- What the loop that releases the names leaves.
  pub record Freed (k : ℕ) (p : Ptr) (v v' : Native E) : Type 0 where
    pub state : v'.state ≡ v.state
    pub gone : (q : Ptr) → p ≤ q → q < p + k → v'.heap.cell q ≡ none
    pub kept : (q : Ptr) → (p ≤ q → p + k ≤ q) → v'.heap.cell q ≡ v.heap.cell q

  free_step_lem :
      (list q : Ptr) (i k : ℕ) {x : Object E.Rep E.Cf E.Snap E.Batch} (v : Native E)
      → load_at E L list i v ≡ done q v
      → v.heap.cell q ≡ some x
      → free_from E L list i (suc k) v
        ≡ free_from E L list
            (i + 1)
            k
            (record v { heap = record v.heap { cell = update v.heap.cell q none } })
  unfolding free_from
  free_step_lem list q i k v at here = rw at (ground (arith, here))

  pub free_lem :
      (fs : List Bytes) (list p : Ptr) (i n : ℕ) (v : Native E)
      → list < p
      → v.heap.cell list ≡ some (strings (from p n))
      → i + length fs ≤ n
      → Chars v.heap.cell (p + i) fs
      → (v' : Native E) × (free_from E L list i (length fs) v ≡ done tt v')
        × Freed (length fs) (p + i) v v'
  unfolding free_from
  free_lem [] list p i n v lt here le at =
      (v, refl, record { state = refl; gone = λ q a b. absurd (omega arith); kept = λ q out. refl })
  free_lem (f ∷ fs) list p i n v lt here le at =
      let v₁ : Native E = record v {
        heap = record v.heap { cell = update v.heap.cell (p + i) none };
      } in
      let tail = Chars-tail v.heap.cell (p + i) (p + (i + 1)) f fs (omega arith) at in
      let (v', e, d) =
        free_lem fs list p (i + 1) n v₁ lt (ground (arith, here)) (omega arith)
          (λ j x h. ground arith ∙ tail j x h) in
      (
        v',
        free_step_lem list (p + i) i (length fs) v (load_at_lem list p i n v here (omega arith))
              (Chars-head v.heap.cell (p + i) f fs at)
            ∙ e,
        record {
          state = d.state;
          gone = λ q a b. elim (Bool-cases (q == p + i)) [
            | inl same ↦ d.kept q (λ low. absurd (ground (arith, same, low))) ∙ ground (arith, same)
            | inr other ↦ d.gone q (ground (arith, other, a)) (omega (arith, b))
          ];
          kept = λ q out. d.kept q (λ low. ground (arith, out, low)) ∙ ground (arith, out);
        },
      )
