-- ===== src/Options/Assign.antt =====
-- Assignments to members of a native struct, one after another, and what they leave in it.
use mathlib.Core.Logic.{ite, if_pos, if_neg}
use mathlib.Core.Option.{get_or}
use rust_rocks.Common.{
  map, take, length, ℕ, ◌≡◌, refl, sym, ap, ◌∙◌, ◌≢◌, Option, none, some, List, [], ◌∷◌, ◌++◌,
  fun_ext, arith, subst, Bool, false, to_u8,
}
use rust_rocks.Ffi.{panic, fault, Ptr, World, Outcome, done, M, pure, and_then, ◌>>◌, update}
use rust_rocks.Ffi.Laws.{and_then_assoc}
use rust_rocks.Options.Struct.{
  Value, flag, Settings, Kind, put_member, read_struct, set_member, flag_of, flag_of-to_u8, owned,
  IsPlain, only, boxes,
}

and_then_pure : {W : Type 0} (o : Outcome W (Unit {0})) → and_then o (λ _ w. done tt w) ≡ o
and_then_pure (done tt w) = refl
and_then_pure (panic w) = refl
and_then_pure fault = refl

module _ {Obj Field : Type 0} (K : Kind Obj Field) where
  -- Assignments to members, one after another.
  unfoldable pub assign_all : {S : Type 0} → List (Field × Value) → Ptr → M (World Obj S) (Unit {0})
  assign_all [] p = pure tt
  assign_all ((f, v) ∷ es) p = do set_member K p f v; assign_all es p

  -- What the last assignment to a member gives it, if there is one.
  unfoldable pub last_set : List (Field × Value) → Field → Option Value
  last_set [] f = none
  last_set ((g, v) ∷ es) f = elim (last_set es f) [
    | some u ↦ some u
    | none ↦ ite (K.discrete f g) (some v) none
  ]

  -- The members after assignments, told by the last one to each.
  unfoldable pub after : Settings Field → List (Field × Value) → Settings Field
  after s es f = get_or (last_set es f) (s f)

  pub after-cons :
      (s : Settings Field) (f : Field) (v : Value) (es : List (Field × Value))
      → after (put_member K s f v) es ≡ after s ((f, v) ∷ es)
  unfolding after last_set
  after-cons s f v es = fun_ext (λ g. step g (last_set es g))
    where
      step :
          (g : Field) (o : Option Value)
          → get_or o (put_member K s f v g)
            ≡ get_or (elim o [ some u ↦ some u | none ↦ ite (K.discrete g f) (some v) none ]) (s g)
      step g (some u) = refl
      step g none = elim (K.discrete g f) [
        | yes e ↦ rw (if_pos _ e, if_pos _ e)
        | no e ↦ rw (if_neg _ e, if_neg _ e)
      ]

  -- No assigned value brings a box to a member that owns its boxes.
  abbrev pub IsPlainScript : List (Field × Value) → Type 0
  IsPlainScript [] = Unit {0}
  IsPlainScript ((f, v) ∷ es) = (owned K f v ≡ []) × IsPlainScript es

  pub IsPlainScript-append :
      (es fs : List (Field × Value))
      → IsPlainScript es
      → IsPlainScript fs
      → IsPlainScript (es ++ fs)
  IsPlainScript-append [] fs a b = b
  IsPlainScript-append ((f, v) ∷ es) fs (h, a) b = (h, IsPlainScript-append es fs a b)

  -- A struct with no owning member takes any values.
  pub IsPlainScript-all :
      ((f : Field) → K.owns f ≡ false) → (es : List (Field × Value)) → IsPlainScript es
  IsPlainScript-all free [] = tt
  IsPlainScript-all free ((f, v) ∷ es) =
      (ap (λ b. only b (boxes v)) (free f), IsPlainScript-all free es)

  IsPlain-put_member :
      (s : Settings Field) (f : Field) (v : Value)
      → IsPlain K s
      → owned K f v ≡ []
      → IsPlain K (put_member K s f v)
  IsPlain-put_member s f v plain h g = elim (K.discrete g f) [
    | yes e ↦ rw (if_pos _ e, e) h
    | no e ↦ rw (if_neg _ e) (plain g)
  ]

  -- Each assignment finds the member without a box of its own.
  abbrev pub IsSafe : Settings Field → List (Field × Value) → Type 0
  IsSafe s [] = Unit {0}
  IsSafe s ((f, v) ∷ es) = (owned K f (s f) ≡ []) × IsSafe (put_member K s f v) es

  pub IsSafe-plain :
      (s : Settings Field) (es : List (Field × Value))
      → IsPlain K s
      → IsPlainScript es
      → IsSafe s es
  IsSafe-plain s [] plain script = tt
  IsSafe-plain s ((f, v) ∷ es) plain (h, script) =
      (plain f, IsSafe-plain (put_member K s f v) es (IsPlain-put_member s f v plain h) script)

  -- No assigned member owns boxes.
  abbrev pub IsUnowned : List (Field × Value) → Type 0
  IsUnowned [] = Unit {0}
  IsUnowned ((f, v) ∷ es) = (K.owns f ≡ false) × IsUnowned es

  pub IsUnowned-append :
      (es fs : List (Field × Value)) → IsUnowned es → IsUnowned fs → IsUnowned (es ++ fs)
  IsUnowned-append [] fs a b = b
  IsUnowned-append ((f, v) ∷ es) fs (h, a) b = (h, IsUnowned-append es fs a b)

  pub IsSafe-unowned : (s : Settings Field) (es : List (Field × Value)) → IsUnowned es → IsSafe s es
  IsSafe-unowned s [] free = tt
  IsSafe-unowned s ((f, v) ∷ es) (h, free) =
      (ap (λ b. only b (boxes (s f))) h, IsSafe-unowned (put_member K s f v) es free)

  pub after-IsPlain :
      (s : Settings Field) (es : List (Field × Value))
      → IsPlain K s
      → IsPlainScript es
      → IsPlain K (after s es)
  unfolding after last_set
  after-IsPlain s [] plain script = plain
  after-IsPlain s ((f, v) ∷ es) plain (h, script) =
      subst (λ r. IsPlain K r) (after-cons s f v es)
        (after-IsPlain (put_member K s f v) es (IsPlain-put_member s f v plain h) script)

  -- Only the object at `p` changed: it is now the struct with the members `s`.
  pub record Changed {S : Type 0} (p : Ptr) (s : Settings Field) (w w' : World Obj S) : Type 0 where
    pub here : w'.heap.cell p ≡ some (K.wrap s)
    pub others : (q : Ptr) → q ≢ p → w'.heap.cell q ≡ w.heap.cell q
    pub next : w'.heap.next ≡ w.heap.next
    pub state : w'.state ≡ w.state

  module _ {S : Type 0} where
    abbrev pub written : World Obj S → Ptr → Settings Field → World Obj S
    written w p s = record w {
      heap = record w.heap { cell = update w.heap.cell p (some (K.wrap s)) };
    }

    pub set_member-written :
        (w : World Obj S) (p : Ptr) (s : Settings Field) (f : Field) (v : Value)
        → w.heap.cell p ≡ some (K.wrap s)
        → owned K f (s f) ≡ []
        → set_member K p f v w ≡ done tt (written w p (put_member K s f v))
    unfolding set_member read_struct
    set_member-written w p s f v here plain = ground (arith, here, K.unwrap-wrap s, plain)

    pub assign_all-append :
        {A : Type 0} (es fs : List (Field × Value)) (p : Ptr) (k : Unit {0} → M (World Obj S) A)
        (w : World Obj S)
        → and_then (assign_all (es ++ fs) p w) k
          ≡ and_then (assign_all es p w) (λ _ w'. and_then (assign_all fs p w') k)
    unfolding assign_all
    assign_all-append [] fs p k w = refl
    assign_all-append ((f, v) ∷ es) fs p k w =
        and_then_assoc (set_member K p f v w) _ _
        ∙ ap (and_then (set_member K p f v w))
            (fun_ext (λ _. fun_ext (λ w'. assign_all-append es fs p k w')))
        ∙ sym (and_then_assoc (set_member K p f v w) _ _)

    pub assign_all-Changed :
        (es : List (Field × Value)) (p : Ptr) (s : Settings Field) (w : World Obj S)
        → w.heap.cell p ≡ some (K.wrap s)
        → IsSafe s es
        → (w' : World Obj S) × (assign_all es p w ≡ done tt w') × Changed p (after s es) w w'
    unfolding assign_all after last_set
    assign_all-Changed [] p s w here safe =
        (w, refl, record { here = here; others = λ q _. refl; next = refl; state = refl })
    assign_all-Changed ((f, v) ∷ es) p s w here (h, safe) =
        let w₁ : World Obj S = written w p (put_member K s f v) in
        let (w', e, c) = assign_all-Changed es p (put_member K s f v) w₁ (ground arith) safe in
        (
          w',
          rw (set_member-written w p s f v here h) e,
          record {
            here = c.here ∙ ap (λ r. some (K.wrap r)) (after-cons s f v es);
            others = λ q ne. ground (arith, c.others q ne);
            next = c.next;
            state = c.state;
          },
        )

    -- A setter that assigns one member.
    pub assign_one :
        {A : Type 0} (f : Field) (v : Value) (p : Ptr) (a : A) (w : World Obj S)
        → and_then (set_member K p f v w) (λ _ w'. done a w')
          ≡ and_then (assign_all ((f, v) ∷ []) p w) (λ _ w'. done a w')
    unfolding assign_all
    assign_one f v p a w = sym (and_then_assoc (set_member K p f v w) _ _)

    pub assign_flag :
        {A : Type 0} (f : Field) (b : Bool) (p : Ptr) (a : A) (w : World Obj S)
        → and_then (set_member K p f (flag_of (to_u8 b)) w) (λ _ w'. done a w')
          ≡ and_then (assign_all ((f, flag b) ∷ []) p w) (λ _ w'. done a w')
    assign_flag f b p a w = rw (flag_of-to_u8 b) (assign_one f (flag b) p a w)

    -- The last of several assignments.
    assign_last :
        (f : Field) (v : Value) (p : Ptr) → set_member {S = S} K p f v ≡ assign_all ((f, v) ∷ []) p
    unfolding assign_all
    assign_last f v p = fun_ext (λ w. sym (and_then_pure (set_member K p f v w)))

    pub assign_four :
        {A : Type 0} (f g h k : Field) (a b c d : Value) (p : Ptr) (x : A) (w : World Obj S)
        → and_then
            ((set_member K p f a
                >> (set_member K p g b >> (set_member K p h c >> set_member K p k d)))
              w)
            (λ _ w'. done x w')
          ≡ and_then (assign_all ((f, a) ∷ (g, b) ∷ (h, c) ∷ (k, d) ∷ []) p w) (λ _ w'. done x w')
    unfolding assign_all
    assign_four f g h k a b c d p x w =
        ap
          (λ m.
            and_then ((set_member K p f a >> (set_member K p g b >> (set_member K p h c >> m))) w)
              (λ _ w'. done x w'))
          (assign_last k d p)

-- An array is passed with its length.
pub take-length-map :
    {A : Type 0} (f : A → ℕ) (xs : List A) → take (length xs) (map f xs) ≡ map f xs
take-length-map f [] = refl
take-length-map f (x ∷ xs) = ap (λ ys. f x ∷ ys) (take-length-map f xs)
