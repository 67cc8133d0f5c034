-- ===== src/Db/Opening/Names.antt =====
-- `DB::list_column_families` of src/db.rs, with the glue of rocks-sys/rocks/db.cc.
use rust_rocks.Common.{
  ℕ, zero, suc, ◌+◌, none, some, List, [], ◌∷◌, Bytes, ◌==◌, if◌then◌else◌, length, get_elem?,
}
use rust_rocks.Ffi.{Ptr, null, done, fault, M, pure, ◌>>=◌, ◌>>◌, alloc, load, store, free, assert}
use rust_rocks.Ffi.Object.{Object, strings, chars}
use rust_rocks.Engine.{Engine}
use rust_rocks.Error.{Result, Native, save_error, from_ll, c_string}
use rust_rocks.Db.Opening.{Opener, c_name, map_run}

module _ (E : Engine) (L : Opener E) where
  -- `column_families[i] = strdup(fams[i].c_str())` for each `i`
  unfoldable pub dup_all : List Bytes → M (Native E) (List Ptr)
  unfolding c_string
  dup_all [] = pure []
  dup_all (f ∷ fs) = do p ← alloc (chars (c_string f)); ps ← dup_all fs; pure (p ∷ ps)

  -- the `char**` with its length, and the pointer written to `*status`
  unfoldable pub rocks_db_list_column_families : L.Options → Bytes → M (Native E) (Ptr × ℕ × Ptr)
  unfolding save_error dup_all
  rocks_db_list_column_families o name w =
      let (st, fams) = L.list_column_families o name w.state in
      (do
        status ← save_error E st
        if status == null
            then (do
              column_families ← alloc (strings [])
              ps ← dup_all fams
              store column_families (strings ps)
              pure (column_families, length fams, status))
            else pure (null, 0, status))
        w

  abbrev pub expect_element : ℕ → Object E.Rep E.Cf E.Snap E.Batch → M (Native E) Ptr
  expect_element i (strings ps) w = elim (get_elem? ps i) [ none ↦ fault | some p ↦ done p w ]
  expect_element i _ w = fault

  -- `list[i]`
  unfoldable pub load_at : Ptr → ℕ → M (Native E) Ptr
  load_at list i = do o ← load list; expect_element i o

  -- `free(list[i])` for `k` indices from `i` on
  unfoldable pub free_from : Ptr → ℕ → ℕ → M (Native E) (Unit {0})
  unfolding load_at
  free_from list i zero = pure tt
  free_from list i (suc k) = do p ← load_at list i; free p; free_from list (i + 1) k

  unfoldable pub rocks_db_list_column_families_destroy : Ptr → ℕ → M (Native E) (Unit {0})
  unfolding free_from
  rocks_db_list_column_families_destroy list len =
      if list == null then pure tt else (do free_from list 0 len; free list)

  abbrev pub expect_chars : Object E.Rep E.Cf E.Snap E.Batch → M (Native E) Bytes
  expect_chars (chars s) w = done s w
  expect_chars _ w = fault

  -- `CStr::from_ptr(*cfs.offset(i)).to_str().unwrap().to_string()` for `k` indices from `i` on
  unfoldable pub to_strings : Ptr → ℕ → ℕ → M (Native E) (List Bytes)
  unfolding load_at
  to_strings cfs i zero = pure []
  to_strings cfs i (suc k) = do
    p ← load_at cfs i
    o ← load p
    s ← expect_chars o
    assert (E.is_utf8 s)
    rest ← to_strings cfs (i + 1) k
    pure (s ∷ rest)

  unfoldable pub read_names : Ptr → ℕ → M (Native E) (List Bytes)
  unfolding to_strings rocks_db_list_column_families_destroy
  read_names cfs zero = pure []
  read_names cfs (suc n) = do
    ret ← to_strings cfs 0 (suc n)
    rocks_db_list_column_families_destroy cfs (suc n)
    pure ret

  unfoldable pub list_column_families : L.Options → Bytes → M (Native E) (Result (List Bytes))
  unfolding rocks_db_list_column_families from_ll c_name read_names
  list_column_families options name = do
    dbname ← c_name E L name
    (cfs, lencfs, status) ← rocks_db_list_column_families options dbname
    r ← from_ll E status
    map_run E L (λ _. read_names cfs lencfs) r
