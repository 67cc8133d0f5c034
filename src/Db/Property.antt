-- ===== src/Db/Property.antt =====
-- The properties of a database: `get_property` and `get_int_property` of `DBRef` and `ColumnFamily`
-- in src/db.rs, with the glue of rocks-sys/rocks/db.cc and `rust_string_assign` of src/lib.rs.
use rust_rocks.Common.{
  ℕ, ◌≡◌, refl, ap, not, Option, none, some, [], Bytes, ◌==◌, if◌then◌else◌, length, take-length,
  arith,
}
use rust_rocks.Ffi.{Ptr, done, M, pure, ◌>>=◌}
use rust_rocks.Engine.{Engine}
use rust_rocks.Error.{Native}
use rust_rocks.Db.Glue.{load_cf}
use rust_rocks.Db.Requests.{family}
use rust_rocks.Db.Read.{ask, rust_string_assign}
use rust_rocks.Db.Family.{ColumnFamily}

-- Whether there is a text, and the string after `rust_string_assign` where there is.
abbrev pub assigned : Option Bytes → Bytes → ℕ × Bytes
unfolding rust_string_assign
assigned none value = (0, value)
assigned (some cval) value = (1, rust_string_assign value cval (length cval))

-- Whether there is a number, and `*value` after the call.
abbrev pub written : Option ℕ → ℕ → ℕ × ℕ
written none value = (0, value)
written (some n) value = (1, n)

-- `if ok { Some(ret) } else { None }`
abbrev pub if_ok : {A : Type 0} → ℕ × A → Option A
if_ok (ok, ret) = if not (ok == 0) then some ret else none

module _ (E : Engine) where
  unfoldable pub rocks_db_get_property : Bytes → Bytes → M (Native E) (ℕ × Bytes)
  rocks_db_get_property prop value = do has ← ask E (E.get_property prop); pure (assigned has value)

  unfoldable pub rocks_db_get_property_cf : Ptr → Bytes → Bytes → M (Native E) (ℕ × Bytes)
  unfolding load_cf
  rocks_db_get_property_cf cf prop value = do
    c ← load_cf E cf
    has ← ask E (E.get_property_cf c prop)
    pure (assigned has value)

  unfoldable pub rocks_db_get_int_property : Bytes → ℕ → M (Native E) (ℕ × ℕ)
  rocks_db_get_int_property prop value = do
    has ← ask E (E.get_int_property prop)
    pure (written has value)

  unfoldable pub rocks_db_get_int_property_cf : Ptr → Bytes → ℕ → M (Native E) (ℕ × ℕ)
  unfolding load_cf
  rocks_db_get_int_property_cf cf prop value = do
    c ← load_cf E cf
    has ← ask E (E.get_int_property_cf c prop)
    pure (written has value)

  unfoldable pub get_property : Bytes → M (Native E) (Option Bytes)
  unfolding rocks_db_get_property
  get_property prop = do r ← rocks_db_get_property prop []; pure (if_ok r)

  unfoldable pub get_property_cf : Ptr → Bytes → M (Native E) (Option Bytes)
  unfolding rocks_db_get_property_cf
  get_property_cf cf prop = do r ← rocks_db_get_property_cf cf prop []; pure (if_ok r)

  unfoldable pub get_int_property : Bytes → M (Native E) (Option ℕ)
  unfolding rocks_db_get_int_property
  get_int_property prop = do r ← rocks_db_get_int_property prop 0; pure (if_ok r)

  unfoldable pub get_int_property_cf : Ptr → Bytes → M (Native E) (Option ℕ)
  unfolding rocks_db_get_int_property_cf
  get_int_property_cf cf prop = do r ← rocks_db_get_int_property_cf cf prop 0; pure (if_ok r)

  -- `ColumnFamily::get_property`
  unfoldable pub family_get_property : ColumnFamily → Bytes → M (Native E) (Option Bytes)
  unfolding rocks_db_get_property_cf
  family_get_property cf prop = do
    r ← rocks_db_get_property_cf cf.handle.raw prop []
    pure (if_ok r)

  -- `ColumnFamily::get_int_property`
  unfoldable pub family_get_int_property : ColumnFamily → Bytes → M (Native E) (Option ℕ)
  unfolding rocks_db_get_int_property_cf
  family_get_int_property cf prop = do
    r ← rocks_db_get_int_property_cf cf.handle.raw prop 0
    pure (if_ok r)

text_lem : (o : Option Bytes) → if_ok (assigned o []) ≡ o
unfolding rust_string_assign
text_lem none = refl
text_lem (some bs) = ap some (take-length bs)

number_lem : (o : Option ℕ) → if_ok (written o 0) ≡ o
number_lem none = refl
number_lem (some n) = refl

-- If the handle leads to the column family `c`, every way to read a property returns what the
-- engine returns, for the database or for `c`: the whole text or the number, and `None` exactly if
-- the engine knows no such property. Nothing is changed.
pub get_property-outcome :
    (E : Engine) (w : Native E) (prop : Bytes) (cf : ColumnFamily) (c : E.Cf)
    → family E w.heap.cell cf.handle.raw ≡ some c
    → (get_property E prop w ≡ done (E.get_property prop w.state) w)
      × (get_int_property E prop w ≡ done (E.get_int_property prop w.state) w)
      × (get_property_cf E cf.handle.raw prop w ≡ done (E.get_property_cf c prop w.state) w)
      × (get_int_property_cf E cf.handle.raw prop w ≡ done (E.get_int_property_cf c prop w.state) w)
      × (family_get_property E cf prop w ≡ done (E.get_property_cf c prop w.state) w)
      × (family_get_int_property E cf prop w ≡ done (E.get_int_property_cf c prop w.state) w)
unfolding get_property get_int_property get_property_cf get_int_property_cf family_get_property
    family_get_int_property
get_property-outcome E w prop cf c here = (
  ground (arith, text_lem (E.get_property prop w.state)),
  ground (arith, number_lem (E.get_int_property prop w.state)),
  ground (arith, here, text_lem (E.get_property_cf c prop w.state)),
  ground (arith, here, number_lem (E.get_int_property_cf c prop w.state)),
  ground (arith, here, text_lem (E.get_property_cf c prop w.state)),
  ground (arith, here, number_lem (E.get_int_property_cf c prop w.state)),
)
