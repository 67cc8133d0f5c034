-- ===== src/Db/Dynamic/Built.antt =====
-- The options that a client sets are the options that the engine is asked to set.
use rust_rocks.Common.{
  ◌≡◌, refl, ◌≢◌, ◌∙◌, sym, true, Option, some, [], ◌∷◌, ◌++◌, Bytes, arith, append_assoc,
  append-nil, Bool-cases, inl, inr,
}
use rust_rocks.Db.Glue.{DbCall}
use rust_rocks.Ffi.{Outcome, IsHeap}
use rust_rocks.Engine.{Engine, Call}
use rust_rocks.Error.{Native, Result}
use rust_rocks.Db.Requests.{family, with_family, outcome}
use rust_rocks.Db.Requests.Refinement.{family_call_lem, call_and_save_lem}
use rust_rocks.Db.Family.{ColumnFamily}
use rust_rocks.Db.Dynamic.{
  Settings, same_bytes, assign_key, build, set_options_cf, set_db_options, family_set_options,
}

same_bytes_lem : (a b : Bytes) → same_bytes a b ≡ true → a ≡ b
unfolding same_bytes
same_bytes_lem [] [] h = refl
same_bytes_lem [] (b ∷ bs) h = absurd cc
same_bytes_lem (a ∷ as') [] h = absurd cc
same_bytes_lem (a ∷ as') (b ∷ bs) h = ground (arith, h, same_bytes_lem as' bs)

-- The key is not among the settings.
abbrev pub Fresh : Bytes → Settings → Type 0
Fresh key [] = Unit
Fresh key ((k, v) ∷ m) = (k ≢ key) × Fresh key m

-- No key of the settings comes again.
abbrev pub Distinct : Settings → Type 0
Distinct [] = Unit
Distinct ((k, v) ∷ m) = Fresh k m × Distinct m

assign_key-Fresh :
    (key val : Bytes) (m : Settings) → Fresh key m → assign_key key val m ≡ m ++ ((key, val) ∷ [])
unfolding assign_key
assign_key-Fresh key val [] fresh = refl
assign_key-Fresh key val ((k, v) ∷ m) fresh = elim (Bool-cases (same_bytes k key)) [
  | inl same ↦ absurd (fresh.0 (same_bytes_lem k key same))
  | inr differ ↦ ground (arith, differ, assign_key-Fresh key val m fresh.1)
]

Fresh-append :
    (k key val : Bytes) (m : Settings) → Fresh k m → key ≢ k → Fresh k (m ++ ((key, val) ∷ []))
Fresh-append k key val [] fresh ne = (ne, tt)
Fresh-append k key val ((j, v) ∷ m) fresh ne = (fresh.0, Fresh-append k key val m fresh.1 ne)

-- All keys of `kvs` are new to `m`.
abbrev AllFresh : Settings → Settings → Type 0
AllFresh [] m = Unit
AllFresh ((k, v) ∷ kvs) m = Fresh k m × AllFresh kvs m

AllFresh-append :
    (key val : Bytes) (kvs m : Settings)
    → Fresh key kvs
    → AllFresh kvs m
    → AllFresh kvs (m ++ ((key, val) ∷ []))
AllFresh-append key val [] m fresh all = tt
AllFresh-append key val ((k, v) ∷ kvs) m fresh all = (
  Fresh-append k key val m all.0 (λ e. fresh.0 (sym e)),
  AllFresh-append key val kvs m fresh.1 all.1,
)

build_lem : (kvs m : Settings) → Distinct kvs → AllFresh kvs m → build m kvs ≡ m ++ kvs
unfolding build
build_lem [] m d all = sym (append-nil m)
build_lem ((k, v) ∷ kvs) m d all = rw (assign_key-Fresh k v m all.0) (
    build_lem kvs (m ++ ((k, v) ∷ [])) d.1 (AllFresh-append k v kvs m d.0 all.1)
    ∙ append_assoc m ((k, v) ∷ []) kvs)

AllFresh-nil : (kvs : Settings) → AllFresh kvs []
AllFresh-nil [] = tt
AllFresh-nil ((k, v) ∷ kvs) = (tt, AllFresh-nil kvs)

pub build-Distinct : (kvs : Settings) → Distinct kvs → build [] kvs ≡ kvs
build-Distinct kvs d = build_lem kvs [] d (AllFresh-nil kvs)

same_outcome :
    (E : Engine) (w : Native E) (meant : Settings → Option (DbCall E)) {m m' : Settings}
    {out : Outcome (Native E) (Result (Unit {0}))}
    → m ≡ m'
    → out ≡ outcome E (meant m) w
    → out ≡ outcome E (meant m') w
same_outcome E w meant e h = rw e at h

module _ (E : Engine) (w : Native E) (is : IsHeap w.heap) (kvs : Settings)
    (distinct : Distinct kvs) where
  -- From a heap that meets `IsHeap`, setting options with distinct keys asks the engine to set
  -- exactly these, on the column family that the handle leads to, and returns the status of that
  -- call. `ColumnFamily::set_options` does the same with its own handle, and `set_db_options` for
  -- the options of the database.
  pub set_options_cf-outcome :
      (cf : ColumnFamily)
      → (set_options_cf E cf.handle.raw kvs w
          ≡ outcome E
              (with_family E (family E w.heap.cell cf.handle.raw) λ c. Call.set_options c kvs)
              w)
        × (family_set_options E cf kvs w
            ≡ outcome E
                (with_family E (family E w.heap.cell cf.handle.raw) λ c. Call.set_options c kvs)
                w)
        × (set_db_options E kvs w ≡ outcome E (some (Call.set_db_options kvs)) w)
  set_options_cf-outcome cf =
      let same = build-Distinct kvs distinct in
      let p = cf.handle.raw in
      let on_family = family_call_lem E w is p λ c. Call.set_options c (build [] kvs) in
      let meant : Settings → Option (DbCall E) =
        λ m. with_family E (family E w.heap.cell p) λ c. Call.set_options c m in
      (
        unfold set_options_cf in same_outcome E w meant same on_family,
        unfold family_set_options in same_outcome E w meant same on_family,
        unfold set_db_options in
            same_outcome E w (λ m. some (Call.set_db_options m)) same
              (call_and_save_lem E w is (Call.set_db_options (build [] kvs))),
      )
