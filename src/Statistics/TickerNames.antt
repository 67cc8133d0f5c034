-- ===== src/Statistics/TickerNames.antt =====
-- No two constructors of `Tickers` share a discriminant or a name.
use rust_rocks.Common.{
  ℕ, ◌≡◌, refl, Option, none, some, List, [], ◌∷◌, if◌then◌else◌, get_elem?, ap, ◌∙◌, sym,
}
use Prim.Native.String.{String}
use text.Mathlib.Text.{◌==◌ as str_eq}
use rust_rocks.Statistics.Ticker.{Tickers, discriminant, to_string}

-- All tickers in the order of their numbers.
all : List Tickers
all =
    Tickers.block_cache_miss ∷ Tickers.block_cache_hit ∷ Tickers.block_cache_add
    ∷ Tickers.block_cache_add_failures ∷ Tickers.block_cache_index_miss
    ∷ Tickers.block_cache_index_hit ∷ Tickers.block_cache_index_add
    ∷ Tickers.block_cache_index_bytes_insert ∷ Tickers.block_cache_index_bytes_evict
    ∷ Tickers.block_cache_filter_miss ∷ Tickers.block_cache_filter_hit
    ∷ Tickers.block_cache_filter_add ∷ Tickers.block_cache_filter_bytes_insert
    ∷ Tickers.block_cache_filter_bytes_evict ∷ Tickers.block_cache_data_miss
    ∷ Tickers.block_cache_data_hit ∷ Tickers.block_cache_data_add
    ∷ Tickers.block_cache_data_bytes_insert ∷ Tickers.block_cache_bytes_read
    ∷ Tickers.block_cache_bytes_write ∷ Tickers.bloom_filter_useful ∷ Tickers.persistent_cache_hit
    ∷ Tickers.persistent_cache_miss ∷ Tickers.sim_block_cache_hit ∷ Tickers.sim_block_cache_miss
    ∷ Tickers.memtable_hit ∷ Tickers.memtable_miss ∷ Tickers.get_hit_l0 ∷ Tickers.get_hit_l1
    ∷ Tickers.get_hit_l2_and_up ∷ Tickers.compaction_key_drop_newer_entry
    ∷ Tickers.compaction_key_drop_obsolete ∷ Tickers.compaction_key_drop_range_del
    ∷ Tickers.compaction_key_drop_user ∷ Tickers.compaction_range_del_drop_obsolete
    ∷ Tickers.compaction_optimized_del_drop_obsolete ∷ Tickers.number_keys_written
    ∷ Tickers.number_keys_read ∷ Tickers.number_keys_updated ∷ Tickers.bytes_written
    ∷ Tickers.bytes_read ∷ Tickers.number_db_seek ∷ Tickers.number_db_next ∷ Tickers.number_db_prev
    ∷ Tickers.number_db_seek_found ∷ Tickers.number_db_next_found ∷ Tickers.number_db_prev_found
    ∷ Tickers.iter_bytes_read ∷ Tickers.no_file_closes ∷ Tickers.no_file_opens
    ∷ Tickers.no_file_errors ∷ Tickers.stall_l0_slowdown_micros
    ∷ Tickers.stall_memtable_compaction_micros ∷ Tickers.stall_l0_num_files_micros
    ∷ Tickers.stall_micros ∷ Tickers.db_mutex_wait_micros ∷ Tickers.rate_limit_delay_millis
    ∷ Tickers.no_iterators ∷ Tickers.number_multiget_calls ∷ Tickers.number_multiget_keys_read
    ∷ Tickers.number_multiget_bytes_read ∷ Tickers.number_filtered_deletes
    ∷ Tickers.number_merge_failures ∷ Tickers.bloom_filter_prefix_checked
    ∷ Tickers.bloom_filter_prefix_useful ∷ Tickers.number_of_reseeks_in_iteration
    ∷ Tickers.get_updates_since_calls ∷ Tickers.block_cache_compressed_miss
    ∷ Tickers.block_cache_compressed_hit ∷ Tickers.block_cache_compressed_add
    ∷ Tickers.block_cache_compressed_add_failures ∷ Tickers.wal_file_synced ∷ Tickers.wal_file_bytes
    ∷ Tickers.write_done_by_self ∷ Tickers.write_done_by_other ∷ Tickers.write_timedout
    ∷ Tickers.write_with_wal ∷ Tickers.compact_read_bytes ∷ Tickers.compact_write_bytes
    ∷ Tickers.flush_write_bytes ∷ Tickers.number_direct_load_table_properties
    ∷ Tickers.number_superversion_acquires ∷ Tickers.number_superversion_releases
    ∷ Tickers.number_superversion_cleanups ∷ Tickers.number_block_compressed
    ∷ Tickers.number_block_decompressed ∷ Tickers.number_block_not_compressed
    ∷ Tickers.merge_operation_total_time ∷ Tickers.filter_operation_total_time
    ∷ Tickers.row_cache_hit ∷ Tickers.row_cache_miss ∷ Tickers.read_amp_estimate_useful_bytes
    ∷ Tickers.read_amp_total_read_bytes ∷ Tickers.number_rate_limiter_drains ∷ []

-- The first of some tickers with a name.
named : List Tickers → String → Option Tickers
unfolding to_string
named [] s = none
named (t ∷ ts) s = let rest = named ts s in if str_eq (to_string t) s then some t else rest

named-to_string : (t : Tickers) → named all (to_string t) ≡ some t
unfolding to_string all named
named-to_string Tickers.block_cache_miss = refl
named-to_string _ = refl

-- The ticker with a discriminant.
numbered : ℕ → Option Tickers
unfolding all
numbered n = get_elem? all n

numbered-discriminant : (t : Tickers) → numbered (discriminant t) ≡ some t
unfolding discriminant numbered
numbered-discriminant Tickers.block_cache_miss = refl
numbered-discriminant _ = refl

some-inj : {t u : Tickers} → Option.some t ≡ some u → t ≡ u
some-inj e = cc

-- Different tickers are handed to the library under different numbers.
pub ticker_discriminant-injective : (t u : Tickers) → discriminant t ≡ discriminant u → t ≡ u
ticker_discriminant-injective t u e =
    some-inj (sym (numbered-discriminant t) ∙ ap numbered e ∙ numbered-discriminant u)

-- `Display` writes different names for different tickers: the name determines the ticker.
pub ticker_to_string-injective : (t u : Tickers) → to_string t ≡ to_string u → t ≡ u
ticker_to_string-injective t u e =
    some-inj (sym (named-to_string t) ∙ ap (named all) e ∙ named-to_string u)
