-- ===== src/Tests/Counts.antt =====
-- Tests of Statistics, with counters that are a function.
use rust_rocks.Common.{ℕ, ◌+◌, ◌%◌, ◌^◌, ◌≡◌, refl, ◌≢◌, ◌==◌, if◌then◌else◌}
use rust_rocks.Statistics.Ticker.{Tickers}
use rust_rocks.Statistics.Histogram.{Histograms}
use rust_rocks.Statistics.HistogramNames.{names-injective}
use rust_rocks.Statistics.Counters.{
  Counters, Statistics, Store, clone, get_ticker_count, record_tick, set_ticker_count,
  get_and_reset_ticker_count, get_ticker_count-outcome,
}

abbrev toy_counters : Counters
toy_counters = record {
  Stats = ℕ → ℕ;
  get_ticker_count = λ i s. s i;
  record_tick = λ i n s j. if i == j then (s j + n) % 2 ^ 64 else s j;
  set_ticker_count = λ i n s j. if i == j then n else s j;
  get_and_reset_ticker_count = λ i s. (s i, λ j. if i == j then 0 else s j);
  get-record_tick = λ i j n s. refl;
  get-set_ticker_count = λ i j n s. refl;
  get-get_and_reset = λ i j s. (refl, refl);
}

abbrev counts : Store toy_counters
counts r i = r + i

abbrev stats : Statistics
stats = record { rep = 4 }

names-injective_example :
    (Tickers.row_cache_hit ≡ Tickers.row_cache_hit) × (Histograms.db_seek ≡ Histograms.db_seek)
names-injective_example =
    names-injective Tickers.row_cache_hit Tickers.row_cache_hit Histograms.db_seek
      Histograms.db_seek refl refl

tickers_apart : Tickers.row_cache_miss ≢ Tickers.row_cache_hit
tickers_apart e = absurd cc

get_ticker_count-outcome_example :
    ((get_ticker_count toy_counters
          (clone stats)
          Tickers.row_cache_hit
          (record_tick toy_counters stats Tickers.row_cache_hit 2 counts)
        ≡ (get_ticker_count toy_counters stats Tickers.row_cache_hit counts + 2) % 2 ^ 64)
      × (get_ticker_count toy_counters
            (clone stats)
            Tickers.row_cache_hit
            (set_ticker_count toy_counters stats Tickers.row_cache_hit 2 counts)
          ≡ 2)
      × ((get_and_reset_ticker_count toy_counters stats Tickers.row_cache_hit counts).0
          ≡ get_ticker_count toy_counters stats Tickers.row_cache_hit counts)
      × (get_ticker_count toy_counters
            (clone stats)
            Tickers.row_cache_hit
            (get_and_reset_ticker_count toy_counters stats Tickers.row_cache_hit counts).1
          ≡ 0))
    × (get_ticker_count toy_counters stats Tickers.row_cache_miss
          (record_tick toy_counters stats Tickers.row_cache_hit 2 counts)
        ≡ get_ticker_count toy_counters stats Tickers.row_cache_miss counts)
    × (get_ticker_count toy_counters stats Tickers.row_cache_miss
          (set_ticker_count toy_counters stats Tickers.row_cache_hit 2 counts)
        ≡ get_ticker_count toy_counters stats Tickers.row_cache_miss counts)
    × (get_ticker_count toy_counters stats Tickers.row_cache_miss
          (get_and_reset_ticker_count toy_counters stats Tickers.row_cache_hit counts).1
        ≡ get_ticker_count toy_counters stats Tickers.row_cache_miss counts)
get_ticker_count-outcome_example =
    get_ticker_count-outcome toy_counters stats Tickers.row_cache_hit counts 2 stats
      Tickers.row_cache_miss (λ same. tickers_apart)
