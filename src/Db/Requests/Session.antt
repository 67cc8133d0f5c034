-- ===== src/Db/Requests/Session.antt =====
-- A session is a list of requests, each made when the one before has returned. The client reads the
-- code of an error and drops it.
use rust_rocks.Common.{
  ℕ, ◌≡◌, refl, ◌∙◌, fun_ext, Option, none, some, List, [], ◌∷◌, arith, if◌then◌else◌, Option-cases,
  inl, inr,
}
use rust_rocks.Ffi.{Outcome, done, fault, M, pure, ◌>>=◌, ◌>>◌, and_then, IsHeap}
use rust_rocks.Ffi.Object.{batch}
use rust_rocks.Engine.{Engine}
use rust_rocks.Error.{Result, Native, rocks_status_code, drop_status}
use rust_rocks.Error.Ownership.{
  Balanced, report_of, after_report, Balanced-after_report, Balanced-refl, Balanced-alloc_free,
}
use rust_rocks.Ffi.Laws.{and_then_assoc}
use rust_rocks.Db.Glue.{DbCall}
use rust_rocks.Db.Requests.{
  Request, perform, meaning, outcome, handed_over, after_call, status_after, Cells,
}
use rust_rocks.Db.Requests.Refinement.{perform_lem}

module _ (E : Engine) where
  -- The client's look at a result: no error, or the code of the native status.
  unfoldable pub read_code : Result (Unit {0}) → M (Native E) (Option ℕ)
  unfolding rocks_status_code drop_status
  read_code (Result.ok a) = pure none
  read_code (Result.err s) = do c ← rocks_status_code E s.raw; drop_status E s; pure (some c)

  unfoldable pub session : List (Request E) → M (Native E) (List (Option ℕ))
  unfolding read_code
  session [] = pure []
  session (r ∷ rs) = do
    result ← perform E r
    seen ← read_code result
    rest ← session rs
    pure (seen ∷ rest)

  -- The same session as the database sees it, with no native heap: the engine is called for each
  -- request, and the client is told the code unless the status is ok.
  abbrev pub answer : E.Rep → Option ℕ
  answer s = if E.is_ok s then none else some (E.code s)

  abbrev pub record_answer :
      Option ℕ → Option (List (Option ℕ) × E.Db) → Option (List (Option ℕ) × E.Db)
  record_answer a none = none
  record_answer a (some (answers, d)) = some (a ∷ answers, d)

  abbrev pub expected_call :
      Option (DbCall E)
      → (E.Db → Option (List (Option ℕ) × E.Db))
      → E.Db
      → Option (List (Option ℕ) × E.Db)
  expected_call none rest d = none
  expected_call (some c) rest d = record_answer (answer (E.call c d).0) (rest (E.call c d).1)

  abbrev pub expected : Cells E → List (Request E) → E.Db → Option (List (Option ℕ) × E.Db)
  expected h [] d = some ([], d)
  expected h (r ∷ rs) d = expected_call (meaning E h r) (expected h rs) d

  -- What a session comes to: the answers, the database, and a native heap with nothing leaked.
  abbrev pub Ran :
      Native E → Option (List (Option ℕ) × E.Db) → Outcome (Native E) (List (Option ℕ)) → Type 0
  Ran w none out = out ≡ fault
  Ran w (some (answers, d)) out =
      (w' : Native E) × (out ≡ done answers w') × (w'.state ≡ d) × Balanced E w w'

module _ (E : Engine) where
  read_code-report_lem :
      (w : Native E)
      → IsHeap w.heap
      → (s : E.Rep)
      → and_then (report_of E s w) (read_code E) ≡ done (answer E s) (after_report E s w)
  unfolding read_code
  read_code-report_lem w is s = ground (arith, is.positive)

  step_lem :
      (w : Native E)
      → IsHeap w.heap
      → (c : DbCall E)
      → and_then (outcome E (some c) w) (read_code E)
        ≡ done
            (answer E (status_after E c w))
            (after_report E (status_after E c w) (after_call E c w))
  step_lem w is c = read_code-report_lem (after_call E c w) is (status_after E c w)

  Balanced-trans : {u v w : Native E} → Balanced E u v → Balanced E v w → Balanced E u w
  Balanced-trans a b = record { cells = λ p. b.cells p ∙ a.cells p; heap = b.heap }

  Ran-cons :
      {w v : Native E} (a : Option ℕ) (e : Option (List (Option ℕ) × E.Db))
      (out : Outcome (Native E) (List (Option ℕ)))
      → Balanced E w v
      → Ran E v e out
      → Ran E w (record_answer E a e) (and_then out λ rest. pure (a ∷ rest))
  Ran-cons a none out b h = rw h
  Ran-cons a (some (answers, d)) out b (w', run, same, b') = (w', rw run, same, Balanced-trans b b')

  state-handed_over : (w : Native E) (r : Request E) → (handed_over E r w).state ≡ w.state
  state-handed_over w (Request.write o b) = refl
  state-handed_over w _ = refl

  Balanced-handed_over :
      (w : Native E) → IsHeap w.heap → (r : Request E) → Balanced E w (handed_over E r w)
  Balanced-handed_over w is (Request.write o b) = Balanced-alloc_free E w is (batch b)
  Balanced-handed_over w is _ = Balanced-refl E w is

  session-cons :
      (w : Native E) (is : IsHeap w.heap) (r : Request E) (rs : List (Request E)) (c : DbCall E)
      → meaning E w.heap.cell r ≡ some c
      → (u : Native E) → handed_over E r w ≡ u
      → IsHeap u.heap
      → session E (r ∷ rs) w
        ≡ and_then
            (session E rs (after_report E (status_after E c u) (after_call E c u)))
            (λ rest. pure (answer E (status_after E c u) ∷ rest))
  unfolding session
  session-cons w is r rs c m u same is' = rw (
    ← and_then_assoc (perform E r w) (read_code E)
        (λ seen. session E rs >>= λ rest. pure (seen ∷ rest)),
    perform_lem E w is r,
    m,
    same,
    step_lem u is' c,
  )

  session-fault :
      (w : Native E) (is : IsHeap w.heap) (r : Request E) (rs : List (Request E))
      → meaning E w.heap.cell r ≡ none
      → session E (r ∷ rs) w ≡ fault
  unfolding session
  session-fault w is r rs m = rw (perform_lem E w is r, m)

  same_state :
      (w : Native E) (c : DbCall E) (rs : List (Request E)) (d : E.Db)
      → d ≡ w.state
      → (out : Outcome (Native E) (List (Option ℕ)))
      → Ran E w (expected_call E (some c) (expected E w.heap.cell rs) d) out
      → Ran E w (expected_call E (some c) (expected E w.heap.cell rs) w.state) out
  same_state w c rs d same out h = rw same at h

  state-after_report : (s : E.Rep) (w : Native E) → (after_report E s w).state ≡ w.state
  state-after_report s w = ground arith

-- From a heap that meets `IsHeap`, a session asks the engine for exactly what its requests mean,
-- in order, and tells the client the code of each failure; at its end the native heap holds what
-- it held before, and batches that were handed over are gone. A request that names a column family handle which is not there is a fault.
pub session-expected :
    (E : Engine) (rs : List (Request E)) (w : Native E)
    → IsHeap w.heap
    → Ran E w (expected E w.heap.cell rs w.state) (session E rs w)
session-expected E [] w is = (w, unfold session in refl, refl, Balanced-refl E w is)
session-expected E (r ∷ rs) w is = elim (Option-cases (meaning E w.heap.cell r)) [
  | inl m ↦ rw m (session-fault E w is r rs m)
  | inr (c, m) ↦
      let u = handed_over E r w in
      let h = Balanced-handed_over E w is r in
      let s = status_after E c u in
      let v = after_report E s (after_call E c u) in
      let b' = Balanced-after_report E (after_call E c u) h.heap s in
      let b : Balanced E u v = record { cells = b'.cells; heap = b'.heap } in
      let b'' : Balanced E w v = Balanced-trans E h b in
      let ih = session-expected E rs v b''.heap in
      rw (m, session-cons E w is r rs c m u refl h.heap)
        (same_state E w c rs u.state (state-handed_over E w r) _ (
          Ran-cons E (answer E s) _ (session E rs v) b''
            (rw (state-after_report E s (after_call E c u), fun_ext b''.cells) at ih)))
]
