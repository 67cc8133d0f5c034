-- ===== src/Options/Db/Shared.antt =====
-- src/options.rs: the setters of `DBOptions` that take a native object, with their glue in
-- rocks-sys/rocks/options.cc. An object that is taken by value is its raw pointer, and is released
-- when the setter returns; the options keep what it pointed to.
use rust_rocks.Common.{ℕ, Option, none, some, ◌==◌, if◌then◌else◌}
use rust_rocks.Ffi.{Ptr, null, M, pure, ◌>>=◌, ◌>>◌, alloc, free}
use rust_rocks.Options.Struct.{pointer, read_struct, set_member, append_member, push_wrapped}
use rust_rocks.Options.Objects.{OptionsWorld, db_kind, trait_object, make_shared, read_holder}
use rust_rocks.Options.Fields.{DbField}
use rust_rocks.Options.Db.Object.{DbOptions}

unfoldable pub rocks_dboptions_set_ratelimiter : Ptr → Ptr → M OptionsWorld (Unit {0})
unfolding read_holder
rocks_dboptions_set_ratelimiter opt p =
    if p == null
    then set_member db_kind opt DbField.rate_limiter (pointer none)
    else (do rep ← read_holder p; set_member db_kind opt DbField.rate_limiter (pointer rep))

unfoldable pub rate_limiter : DbOptions → Option Ptr → M OptionsWorld DbOptions
unfolding rocks_dboptions_set_ratelimiter
rate_limiter self none = do rocks_dboptions_set_ratelimiter self.raw null; pure self
rate_limiter self (some p) = do rocks_dboptions_set_ratelimiter self.raw p; free p; pure self

unfoldable pub rocks_dboptions_set_info_log : Ptr → Ptr → M OptionsWorld (Unit {0})
unfolding read_holder
rocks_dboptions_set_info_log opt p =
    if p == null
    then pure tt
    else (do rep ← read_holder p; set_member db_kind opt DbField.info_log (pointer rep))

unfoldable pub info_log : DbOptions → Option Ptr → M OptionsWorld DbOptions
unfolding rocks_dboptions_set_info_log
info_log self none = do rocks_dboptions_set_info_log self.raw null; pure self
info_log self (some p) = do rocks_dboptions_set_info_log self.raw p; free p; pure self

unfoldable pub rocks_dboptions_set_statistics : Ptr → Ptr → M OptionsWorld (Unit {0})
unfolding read_holder
rocks_dboptions_set_statistics opt p =
    if p == null
    then set_member db_kind opt DbField.statistics (pointer none)
    else (do rep ← read_holder p; set_member db_kind opt DbField.statistics (pointer rep))

unfoldable pub statistics : DbOptions → Option Ptr → M OptionsWorld DbOptions
unfolding rocks_dboptions_set_statistics
statistics self none = do rocks_dboptions_set_statistics self.raw null; pure self
statistics self (some p) = do rocks_dboptions_set_statistics self.raw p; free p; pure self

unfoldable pub rocks_dboptions_set_row_cache : Ptr → Ptr → M OptionsWorld (Unit {0})
unfolding read_holder
rocks_dboptions_set_row_cache opt p = do
  rep ← read_holder p
  set_member db_kind opt DbField.row_cache (pointer rep)

unfoldable pub row_cache : DbOptions → Option Ptr → M OptionsWorld DbOptions
unfolding rocks_dboptions_set_row_cache
row_cache self none = do rocks_dboptions_set_row_cache self.raw null; pure self
row_cache self (some p) = do rocks_dboptions_set_row_cache self.raw p; free p; pure self

unfoldable pub rocks_dboptions_set_env : Ptr → Ptr → M OptionsWorld (Unit {0})
unfolding read_holder
rocks_dboptions_set_env opt p =
    if p == null
    then set_member db_kind opt DbField.env (pointer none)
    else (do rep ← read_holder p; set_member db_kind opt DbField.env (pointer rep))

-- `env: &'static Env` is not released.
unfoldable pub env : DbOptions → Ptr → M OptionsWorld DbOptions
unfolding rocks_dboptions_set_env
env self p = do rocks_dboptions_set_env self.raw p; pure self

unfoldable pub rocks_dboptions_set_write_buffer_manager : Ptr → Ptr → M OptionsWorld (Unit {0})
unfolding read_holder
rocks_dboptions_set_write_buffer_manager opt p = do
  rep ← read_holder p
  set_member db_kind opt DbField.write_buffer_manager (pointer rep)

-- `val: &WriteBufferManager` is not released.
unfoldable pub write_buffer_manager : DbOptions → Ptr → M OptionsWorld DbOptions
unfolding rocks_dboptions_set_write_buffer_manager
write_buffer_manager self p = do rocks_dboptions_set_write_buffer_manager self.raw p; pure self

unfoldable pub rocks_dboptions_add_listener : Ptr → Ptr → M OptionsWorld (Unit {0})
unfolding read_struct make_shared
rocks_dboptions_add_listener opt obj = do
  make_shared obj
  s ← read_struct db_kind opt
  append_member db_kind opt DbField.listeners (push_wrapped (s DbField.listeners) obj)

-- The number stands for the listener.
unfoldable pub add_listener : DbOptions → ℕ → M OptionsWorld DbOptions
unfolding rocks_dboptions_add_listener
add_listener self val = do
  obj ← alloc (trait_object val)
  rocks_dboptions_add_listener self.raw obj
  pure self
