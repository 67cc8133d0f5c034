-- ===== src/Statistics/HistogramNames.antt =====
-- No two constructors of `Histograms` share a discriminant or a name.
use rust_rocks.Common.{
  ℕ, ◌≡◌, refl, Option, none, some, List, [], ◌∷◌, if◌then◌else◌, get_elem?, ap, ◌∙◌, sym,
}
use Prim.Native.String.{String}
use text.Mathlib.Text.{◌==◌ as str_eq}
use rust_rocks.Statistics.Ticker.{Tickers, to_string as ticker_to_string}
use rust_rocks.Statistics.TickerNames.{ticker_to_string-injective}
use rust_rocks.Statistics.Histogram.{Histograms, discriminant, to_string}

-- All histograms in the order of their numbers.
all : List Histograms
all =
    Histograms.db_get ∷ Histograms.db_write ∷ Histograms.compaction_time
    ∷ Histograms.subcompaction_setup_time ∷ Histograms.table_sync_micros
    ∷ Histograms.compaction_outfile_sync_micros ∷ Histograms.wal_file_sync_micros
    ∷ Histograms.manifest_file_sync_micros ∷ Histograms.table_open_io_micros
    ∷ Histograms.db_multiget ∷ Histograms.read_block_compaction_micros
    ∷ Histograms.read_block_get_micros ∷ Histograms.write_raw_block_micros
    ∷ Histograms.stall_l0_slowdown_count ∷ Histograms.stall_memtable_compaction_count
    ∷ Histograms.stall_l0_num_files_count ∷ Histograms.hard_rate_limit_delay_count
    ∷ Histograms.soft_rate_limit_delay_count ∷ Histograms.num_files_in_single_compaction
    ∷ Histograms.db_seek ∷ Histograms.write_stall ∷ Histograms.sst_read_micros
    ∷ Histograms.num_subcompactions_scheduled ∷ Histograms.bytes_per_read
    ∷ Histograms.bytes_per_write ∷ Histograms.bytes_per_multiget ∷ Histograms.bytes_compressed
    ∷ Histograms.bytes_decompressed ∷ Histograms.compression_times_nanos
    ∷ Histograms.decompression_times_nanos ∷ []

-- The first of some histograms with a name.
named : List Histograms → String → Option Histograms
unfolding to_string
named [] s = none
named (t ∷ ts) s = let rest = named ts s in if str_eq (to_string t) s then some t else rest

named-to_string : (t : Histograms) → named all (to_string t) ≡ some t
unfolding to_string all named
named-to_string Histograms.db_get = refl
named-to_string _ = refl

-- The histogram with a discriminant.
numbered : ℕ → Option Histograms
unfolding all
numbered n = get_elem? all n

numbered-discriminant : (t : Histograms) → numbered (discriminant t) ≡ some t
unfolding discriminant numbered
numbered-discriminant Histograms.db_get = refl
numbered-discriminant _ = refl

some-inj : {t u : Histograms} → Option.some t ≡ some u → t ≡ u
some-inj e = cc

-- Different histograms are handed to the library under different numbers.
pub histogram_discriminant-injective : (t u : Histograms) → discriminant t ≡ discriminant u → t ≡ u
histogram_discriminant-injective t u e =
    some-inj (sym (numbered-discriminant t) ∙ ap numbered e ∙ numbered-discriminant u)

-- `Display` writes different names for different histograms: the name determines the histogram.
pub histogram_to_string-injective : (t u : Histograms) → to_string t ≡ to_string u → t ≡ u
histogram_to_string-injective t u e =
    some-inj (sym (named-to_string t) ∙ ap (named all) e ∙ named-to_string u)

-- `Display` writes different names for different tickers, and for different histograms: the name
-- determines the value.
pub names-injective :
    (t u : Tickers) (h k : Histograms)
    → ticker_to_string t ≡ ticker_to_string u
    → to_string h ≡ to_string k
    → (t ≡ u) × (h ≡ k)
names-injective t u h k e e' =
    (ticker_to_string-injective t u e, histogram_to_string-injective h k e')
