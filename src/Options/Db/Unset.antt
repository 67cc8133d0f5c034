-- ===== src/Options/Db/Unset.antt =====
-- The setter `create_missing_column_families` of `DBOptions` (src/options.rs) calls the glue of
-- `create_if_missing`: what follows for the native struct.
use mathlib.Core.Logic.{if_neg}
use mathlib.Core.Option.{get_or}
use rust_rocks.Common.{Bool, false, ◌≡◌, ◌≢◌, refl, ap, none, some, List, [], ◌∷◌, ◌++◌}
use rust_rocks.Ffi.{done, M, and_then}
use rust_rocks.Options.Struct.{Value, Settings}
use rust_rocks.Options.Fields.{DbField}
use rust_rocks.Options.Objects.{OptionsWorld, db_kind, db_owns, dboptions}
use rust_rocks.Options.Assign.{
  IsPlainScript, IsUnowned, IsUnowned-append, IsSafe-unowned, last_set, after, assign_all,
  assign_flag,
}
use rust_rocks.Options.Chain.{Builder, effects_of, chain, chain-Changed}
use rust_rocks.Options.Db.Object.{DbOptions}
use rust_rocks.Options.Db.Flags
use rust_rocks.Options.Db.FlagSetters.{DbFlag, flag_member}
use rust_rocks.Options.Db.NumberSetters.{DbNumber, number_member}
use rust_rocks.Options.Db.Setters.{DbSetter, effects, db_builder}

abbrev missing : DbField
missing = DbField.create_missing_column_families

flag_member-ne : (m : DbFlag) → missing ≢ flag_member m
unfolding flag_member
flag_member-ne DbFlag.create_if_missing e = cc
flag_member-ne _ e = cc

number_member-ne : (m : DbNumber) → missing ≢ number_member m
unfolding number_member
number_member-ne DbNumber.max_open_files e = cc
number_member-ne _ e = cc

last_set-other :
    (g : DbField) (v : Value) (es : List (DbField × Value))
    → missing ≢ g
    → last_set db_kind es missing ≡ none
    → last_set db_kind ((g, v) ∷ es) missing ≡ none
unfolding last_set
last_set-other g v es ne rest = rw (rest, if_neg _ ne) refl

-- No other setter of plain values assigns to the member.
last_set-effects :
    (s : DbSetter) (es : List (DbField × Value))
    → last_set db_kind es missing ≡ none
    → last_set db_kind (effects s ++ es) missing ≡ none
unfolding effects
last_set-effects (DbSetter.flag m v) es h = last_set-other _ _ es (flag_member-ne m) h
last_set-effects (DbSetter.number m v) es h = last_set-other _ _ es (number_member-ne m) h
last_set-effects _ es h = last_set-other _ _ es (λ e. cc) h

-- The setters of plain values, that of `create_missing_column_families` among them.
pub data AnySetter : Type 0 where
  setter : DbSetter → AnySetter
  create_missing_column_families : Bool → AnySetter

unfoldable pub apply_any : AnySetter → DbOptions → M OptionsWorld DbOptions
unfolding Flags.create_missing_column_families
apply_any (AnySetter.setter s) o = db_builder.apply s o
apply_any (AnySetter.create_missing_column_families v) o = Flags.create_missing_column_families o v

-- What the code assigns for each.
abbrev pub assigned : AnySetter → List (DbField × Value)
assigned (AnySetter.setter s) = effects s
assigned (AnySetter.create_missing_column_families v) =
    (DbField.create_if_missing, Value.flag v) ∷ []

pub assigned-plain : (s : AnySetter) → IsPlainScript db_kind (assigned s)
assigned-plain (AnySetter.setter s) = db_builder.effects-plain s
assigned-plain (AnySetter.create_missing_column_families v) = (refl, tt)

pub apply_any-assigns :
    (s : AnySetter) (o : DbOptions) (w : OptionsWorld)
    → apply_any s o w ≡ and_then (assign_all db_kind (assigned s) o.raw w) (λ _ w'. done o w')
unfolding apply_any
apply_any-assigns (AnySetter.setter s) o w = db_builder.apply-assigns s o w
apply_any-assigns (AnySetter.create_missing_column_families v) o w =
    assign_flag db_kind DbField.create_if_missing v o.raw o w

abbrev pub any_builder : Builder db_kind (Unit {0}) DbOptions AnySetter
any_builder = record {
  raw = λ o. o.raw;
  from_raw = λ p. record { raw = p };
  raw-from_raw = λ _. refl;
  default = db_builder.default;
  default-alloc = db_builder.default-alloc;
  apply = apply_any;
  effects = assigned;
  effects-plain = assigned-plain;
  apply-assigns = apply_any-assigns;
}

flag_member-db_owns : (m : DbFlag) → db_owns (flag_member m) ≡ false
unfolding flag_member
flag_member-db_owns DbFlag.create_if_missing = refl
flag_member-db_owns _ = refl

number_member-db_owns : (m : DbNumber) → db_owns (number_member m) ≡ false
unfolding number_member
number_member-db_owns DbNumber.max_open_files = refl
number_member-db_owns _ = refl

effects-IsUnowned : (s : DbSetter) → IsUnowned db_kind (effects s)
unfolding effects
effects-IsUnowned (DbSetter.flag m v) = (flag_member-db_owns m, tt)
effects-IsUnowned (DbSetter.number m v) = (number_member-db_owns m, tt)
effects-IsUnowned _ = (refl, tt)

effects_of-IsUnowned : (ss : List AnySetter) → IsUnowned db_kind (effects_of any_builder ss)
effects_of-IsUnowned [] = tt
effects_of-IsUnowned (AnySetter.setter s ∷ ss) =
    IsUnowned-append db_kind (effects s) (effects_of any_builder ss) (effects-IsUnowned s)
      (effects_of-IsUnowned ss)
effects_of-IsUnowned (AnySetter.create_missing_column_families v ∷ ss) =
    (refl, effects_of-IsUnowned ss)

last_set-effects_of :
    (ss : List AnySetter) → last_set db_kind (effects_of any_builder ss) missing ≡ none
unfolding last_set
last_set-effects_of [] = refl
last_set-effects_of (AnySetter.setter s ∷ ss) = last_set-effects s _ (last_set-effects_of ss)
last_set-effects_of (AnySetter.create_missing_column_families v ∷ ss) =
    last_set-other DbField.create_if_missing (Value.flag v) (effects_of any_builder ss) (λ e. cc)
      (last_set-effects_of ss)

-- No chain of setters of flags, numbers, enums and directories changes the member
-- `create_missing_column_families` of the native struct: it keeps what it held, whatever the
-- setter of that name was given.
pub create_missing_column_families_unset :
    (ss : List AnySetter) (o : DbOptions) (s : Settings DbField) (w : OptionsWorld)
    → w.heap.cell o.raw ≡ some (dboptions s)
    → (w' : OptionsWorld) × (s' : Settings DbField) × (chain any_builder ss o w ≡ done o w')
      × (w'.heap.cell o.raw ≡ some (dboptions s'))
      × (s' DbField.create_missing_column_families ≡ s DbField.create_missing_column_families)
unfolding after
create_missing_column_families_unset ss o s w here =
    let (w', e, c) =
      chain-Changed any_builder ss o o.raw s w refl here
        (IsSafe-unowned db_kind s (effects_of any_builder ss) (effects_of-IsUnowned ss)) in
    (
      w',
      after db_kind s (effects_of any_builder ss),
      e,
      c.here,
      ap (λ u. get_or u (s missing)) (last_set-effects_of ss),
    )
