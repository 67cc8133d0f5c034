-- ===== src/Options/Db/Others.antt =====
-- src/options.rs: the setters of `DBOptions` that take an access hint or a path, with their glue in
-- rocks-sys/rocks/options.cc. A path is what `Path::to_str` makes of it: nothing, if it is not
-- UTF-8.
use rust_rocks.Common.{
  ℕ, zero, suc, ◌%◌, ◌^◌, Option, none, some, List, [], ◌∷◌, Bytes, map, length, take, ltb, leb,
  ◌==◌, if◌then◌else◌,
}
use rust_rocks.Ffi.{Ptr, done, panic, fault, M, pure, ◌>>=◌, ◌>>◌}
use rust_rocks.Options.Struct.{number, text, paths, set_member}
use rust_rocks.Options.Objects.{OptionsWorld, db_kind}
use rust_rocks.Options.Fields.{DbField}
use rust_rocks.Options.Enums.{AccessHint, access_hint_to_int}
use rust_rocks.Options.Db.Object.{DbOptions}

-- The four cases name the enumerators of RocksDB with the same integers.
unfoldable pub rocks_dboptions_set_access_hint_on_compaction_start :
    Ptr → ℕ → M OptionsWorld (Unit {0})
rocks_dboptions_set_access_hint_on_compaction_start opt v =
    if leb v 3
    then set_member db_kind opt DbField.access_hint_on_compaction_start (number v)
    else pure tt

unfoldable pub access_hint_on_compaction_start : DbOptions → AccessHint → M OptionsWorld DbOptions
unfolding rocks_dboptions_set_access_hint_on_compaction_start access_hint_to_int
access_hint_on_compaction_start self val = do
  rocks_dboptions_set_access_hint_on_compaction_start self.raw (access_hint_to_int val)
  pure self

unfoldable pub rocks_dboptions_set_db_log_dir : Ptr → Bytes → ℕ → M OptionsWorld (Unit {0})
rocks_dboptions_set_db_log_dir opt v len =
    set_member db_kind opt DbField.db_log_dir (text (take len v))

unfoldable pub rocks_dboptions_set_wal_dir : Ptr → Bytes → ℕ → M OptionsWorld (Unit {0})
rocks_dboptions_set_wal_dir opt v len = set_member db_kind opt DbField.wal_dir (text (take len v))

unfoldable pub db_log_dir : DbOptions → Option Bytes → M OptionsWorld DbOptions
unfolding rocks_dboptions_set_db_log_dir
db_log_dir self none = panic
db_log_dir self (some s) = do rocks_dboptions_set_db_log_dir self.raw s (length s); pure self

unfoldable pub wal_dir : DbOptions → Option Bytes → M OptionsWorld DbOptions
unfolding rocks_dboptions_set_wal_dir
wal_dir self none = panic
wal_dir self (some s) = do rocks_dboptions_set_wal_dir self.raw s (length s); pure self

pub record DbPath : Type 0 where
  pub path : Option Bytes
  pub target_size : ℕ

-- `s.map(|s| s.len()).unwrap_or_default()`
abbrev pub length_or_zero : Option Bytes → ℕ
length_or_zero none = 0
length_or_zero (some s) = length s

-- `std::string(s, n)`: no text for a null pointer, unless `n` is 0
abbrev pub string_at : Option Bytes → ℕ → M OptionsWorld Bytes
string_at none n w = if n == 0 then done [] w else fault
string_at (some s) n w = done (take n s) w

-- The rounds of `for (int i = 0; i < size; i++)`, where `size` is `n as c_int`.
abbrev pub rounds : ℕ → ℕ
rounds n = if ltb (n % 2 ^ 32) (2 ^ 31) then n % 2 ^ 32 else 0

-- The loop over the three arrays. A read past the end of one is a fault.
unfoldable pub read_paths :
    ℕ → List (Option Bytes) → List ℕ → List ℕ → M OptionsWorld (List (Bytes × ℕ))
read_paths zero ps ls ts = pure []
read_paths (suc n) (p ∷ ps) (l ∷ ls) (t ∷ ts) = do
  s ← string_at p l
  rest ← read_paths n ps ls ts
  pure ((s, t) ∷ rest)
read_paths (suc n) _ _ _ = λ w. fault

unfoldable pub rocks_dboptions_set_db_paths :
    Ptr → List (Option Bytes) → List ℕ → List ℕ → ℕ → M OptionsWorld (Unit {0})
unfolding read_paths
rocks_dboptions_set_db_paths opt ps ls ts size = do
  dbpaths ← read_paths (rounds size) ps ls ts
  set_member db_kind opt DbField.db_paths (paths dbpaths)

unfoldable pub db_paths : DbOptions → List DbPath → M OptionsWorld DbOptions
unfolding rocks_dboptions_set_db_paths
db_paths self val = do
  rocks_dboptions_set_db_paths self.raw (map (λ p. p.path) val)
      (map (λ p. length_or_zero p.path) val) (map (λ p. p.target_size) val) (length val)
  pure self
