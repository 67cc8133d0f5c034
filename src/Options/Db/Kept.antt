-- ===== src/Options/Db/Kept.antt =====
-- What the setters of `DBOptions` that take a native object leave behind (src/options.rs): the
-- options, and the wrapper of the object.
use rust_rocks.Common.{ℕ, ◌≡◌, ◌≢◌, Option, none, some, arith}
use rust_rocks.Ffi.{Ptr, null, done, fault, update}
use rust_rocks.Options.Struct.{pointer, Settings, read_struct, set_member, put_member}
use rust_rocks.Options.Fields.{DbField}
use rust_rocks.Options.Objects.{OptionsWorld, db_kind, dboptions, holder}
use rust_rocks.Options.Assign.{written}
use rust_rocks.Options.Db.Object.{DbOptions}
use rust_rocks.Options.Db.Shared.{
  rate_limiter, info_log, statistics, row_cache, env, write_buffer_manager,
}

-- The options with a pointer to `rep`, in a world where nothing else changed.
abbrev pub pointed : OptionsWorld → Ptr → Settings DbField → DbField → Option ℕ → OptionsWorld
pointed w raw s f rep = written db_kind w raw (put_member db_kind s f (pointer rep))

-- The same, with the wrapper at `p` released.
abbrev pub pointed_freed :
    OptionsWorld → Ptr → Settings DbField → DbField → Option ℕ → Ptr → OptionsWorld
pointed_freed w raw s f rep p = record w {
  heap = record w.heap { cell = update (pointed w raw s f rep).heap.cell p none };
}

-- Options keep what a rate limiter, a logger, statistics or a cache that they are given points to,
-- and its wrapper is released; an environment and a write buffer manager are borrowed, and their
-- wrappers stay. Nothing else changes. The wrapper at `p` is not the options and not null.
pub shared-kept :
    (self : DbOptions) (s : Settings DbField) (p : Ptr) (rep : Option ℕ) (w : OptionsWorld)
    → w.heap.cell self.raw ≡ some (dboptions s)
    → w.heap.cell p ≡ some (holder rep)
    → p ≢ null
    → (rate_limiter self (some p) w
        ≡ done self (pointed_freed w self.raw s DbField.rate_limiter rep p))
      × (info_log self (some p) w ≡ done self (pointed_freed w self.raw s DbField.info_log rep p))
      × (statistics self (some p) w
          ≡ done self (pointed_freed w self.raw s DbField.statistics rep p))
      × (row_cache self (some p) w ≡ done self (pointed_freed w self.raw s DbField.row_cache rep p))
      × (env self p w ≡ done self (pointed w self.raw s DbField.env rep))
      × (write_buffer_manager self p w
          ≡ done self (pointed w self.raw s DbField.write_buffer_manager rep))
unfolding rate_limiter info_log statistics row_cache env write_buffer_manager set_member read_struct
shared-kept self s p rep w opts here live =
    (ground arith, ground arith, ground arith, ground arith, ground arith, ground arith)

-- Where no object is at address null, giving none clears the rate limiter and the statistics, but
-- leaves the logger that was set before, and is a null dereference for the row cache.
pub shared-none :
    (self : DbOptions) (s : Settings DbField) (w : OptionsWorld)
    → w.heap.cell self.raw ≡ some (dboptions s)
    → w.heap.cell null ≡ none
    → (rate_limiter self none w ≡ done self (pointed w self.raw s DbField.rate_limiter none))
      × (statistics self none w ≡ done self (pointed w self.raw s DbField.statistics none))
      × (info_log self none w ≡ done self w)
      × (row_cache self none w ≡ fault)
unfolding rate_limiter info_log statistics row_cache set_member read_struct
shared-none self s w opts empty = (ground arith, ground arith, ground arith, ground arith)

-- Options keep what a rate limiter, a logger, statistics or a cache that they are given points to,
-- and its wrapper is released; an environment and a write buffer manager are borrowed, and their
-- wrappers stay. Giving none clears the rate limiter and the statistics, but leaves the logger that
-- was set before, and is a null dereference for the row cache. Nothing else changes. The wrapper is
-- at the address `p`, which is not null, and no object is at null.
pub shared-outcome :
    (self : DbOptions) (s : Settings DbField) (p : Ptr) (rep : Option ℕ) (w : OptionsWorld)
    → w.heap.cell self.raw ≡ some (dboptions s)
    → w.heap.cell p ≡ some (holder rep)
    → w.heap.cell null ≡ none
    → (rate_limiter self (some p) w
        ≡ done self (pointed_freed w self.raw s DbField.rate_limiter rep p))
      × (info_log self (some p) w ≡ done self (pointed_freed w self.raw s DbField.info_log rep p))
      × (statistics self (some p) w
          ≡ done self (pointed_freed w self.raw s DbField.statistics rep p))
      × (row_cache self (some p) w ≡ done self (pointed_freed w self.raw s DbField.row_cache rep p))
      × (env self p w ≡ done self (pointed w self.raw s DbField.env rep))
      × (write_buffer_manager self p w
          ≡ done self (pointed w self.raw s DbField.write_buffer_manager rep))
      × (rate_limiter self none w ≡ done self (pointed w self.raw s DbField.rate_limiter none))
      × (statistics self none w ≡ done self (pointed w self.raw s DbField.statistics none))
      × (info_log self none w ≡ done self w)
      × (row_cache self none w ≡ fault)
shared-outcome self s p rep w opts here empty =
    let (a, b, c, d, e, f) =
      shared-kept self s p rep w opts here (λ at_null. ground (arith, here, empty, at_null)) in
    let (g, h, i, j) = shared-none self s w opts empty in (a, b, c, d, e, f, g, h, i, j)
