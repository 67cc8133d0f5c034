-- ===== src/Tests/Changes.antt =====
-- Tests of Db/Dynamic and Db/Property.
use rust_rocks.Common.{refl, ℕ, ◌≡◌, ◌≢◌, some, [], ◌∷◌, true, ap, Bytes, arith}
use rust_rocks.Engine.{Call}
use rust_rocks.Db.Requests.{outcome}
use rust_rocks.Db.Family.{ColumnFamily}
use rust_rocks.Ffi.{done}
use rust_rocks.Db.Property.{
  get_property, get_int_property, get_property_cf, get_int_property_cf, family_get_property,
  family_get_int_property, get_property-outcome,
}
use rust_rocks.Db.Dynamic.{Settings, set_options_cf, set_db_options, family_set_options}
use rust_rocks.Db.Dynamic.Built.{Distinct, set_options_cf-outcome}
use rust_rocks.Tests.Toy.{toy, toy_world}
use rust_rocks.Tests.Errors.{toy_world-IsHeap}

abbrev settings : Settings
settings = (b'a' ∷ [], b'1' ∷ []) ∷ (b'b' ∷ [], b'2' ∷ []) ∷ []

abbrev first : Bytes → ℕ
first [] = 0
first (b ∷ bs) = b

abbrev key_a : Bytes
key_a = b'a' ∷ []

abbrev key_b : Bytes
key_b = b'b' ∷ []

keys_apart : key_b ≢ key_a
keys_apart e = absurd (omega (arith, ap first e))

settings-Distinct : Distinct settings
settings-Distinct = ((keys_apart, tt), (tt, tt))

abbrev owned_family : ColumnFamily
owned_family = record { handle = record { raw = 1 }; owned = true }

set_options_cf-outcome_example :
    (set_options_cf toy 1 settings toy_world
      ≡ outcome toy (some (Call.set_options 3 settings)) toy_world)
    × (family_set_options toy owned_family settings toy_world
        ≡ outcome toy (some (Call.set_options 3 settings)) toy_world)
    × (set_db_options toy settings toy_world
        ≡ outcome toy (some (Call.set_db_options settings)) toy_world)
set_options_cf-outcome_example =
    set_options_cf-outcome toy toy_world toy_world-IsHeap settings settings-Distinct owned_family

get_property-outcome_example :
    (get_property toy key_a toy_world ≡ done (some key_a) toy_world)
    × (get_int_property toy key_a toy_world ≡ done (some 1) toy_world)
    × (get_property_cf toy 1 key_a toy_world ≡ done (some key_a) toy_world)
    × (get_int_property_cf toy 1 key_a toy_world ≡ done (some 1) toy_world)
    × (family_get_property toy owned_family key_a toy_world ≡ done (some key_a) toy_world)
    × (family_get_int_property toy owned_family key_a toy_world ≡ done (some 1) toy_world)
get_property-outcome_example = get_property-outcome toy toy_world key_a owned_family 3 refl
