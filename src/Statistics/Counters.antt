-- ===== src/Statistics/Counters.antt =====
-- The operations of `Statistics` on tickers. Clones share the counters of one `rocksdb::Statistics`
-- object, as the glue's copies of its `shared_ptr` do, so a handle names the object it shares.
use rust_rocks.Common.{
  ℕ, ◌+◌, ◌%◌, ◌^◌, ◌≡◌, ◌≢◌, false, ◌==◌, if◌then◌else◌, arith, inl, inr, Bool-cases,
}
use rust_rocks.Statistics.Ticker.{Tickers, discriminant}
use rust_rocks.Statistics.TickerNames.{ticker_discriminant-injective}

-- `rocksdb::Statistics`, which takes a ticker's number: a parameter with its documented behaviour.
pub record Counters : Type 1 where
  pub Stats : Type 0
  pub get_ticker_count : ℕ → Stats → ℕ
  pub record_tick : ℕ → ℕ → Stats → Stats
  pub set_ticker_count : ℕ → ℕ → Stats → Stats
  pub get_and_reset_ticker_count : ℕ → Stats → ℕ × Stats
  -- counts are 64 bits wide
  pub get-record_tick :
      (i j n : ℕ) (s : Stats)
      → get_ticker_count j (record_tick i n s)
        ≡ (if i == j then (get_ticker_count j s + n) % 2 ^ 64 else get_ticker_count j s)
  pub get-set_ticker_count :
      (i j n : ℕ) (s : Stats)
      → get_ticker_count j (set_ticker_count i n s) ≡ (if i == j then n else get_ticker_count j s)
  pub get-get_and_reset :
      (i j : ℕ) (s : Stats)
      → ((get_and_reset_ticker_count i s).0 ≡ get_ticker_count i s)
        × (get_ticker_count j (get_and_reset_ticker_count i s).1
            ≡ (if i == j then 0 else get_ticker_count j s))

-- The crate's `Statistics`, by the shared object that it points to.
pub record Statistics : Type 0 where
  pub rep : ℕ

unfoldable pub clone : Statistics → Statistics
clone s = record { rep = s.rep }

module _ (C : Counters) where
  -- The shared objects.
  abbrev pub Store : Type 0
  Store = ℕ → C.Stats

  abbrev pub set : ℕ → C.Stats → Store → Store
  set i x m j = if i == j then x else m j

  unfoldable pub get_ticker_count : Statistics → Tickers → Store → ℕ
  unfolding discriminant
  get_ticker_count s t m = C.get_ticker_count (discriminant t) (m s.rep)

  unfoldable pub record_tick : Statistics → Tickers → ℕ → Store → Store
  unfolding discriminant
  record_tick s t count m = set s.rep (C.record_tick (discriminant t) count (m s.rep)) m

  unfoldable pub set_ticker_count : Statistics → Tickers → ℕ → Store → Store
  unfolding discriminant
  set_ticker_count s t count m = set s.rep (C.set_ticker_count (discriminant t) count (m s.rep)) m

  unfoldable pub get_and_reset_ticker_count : Statistics → Tickers → Store → ℕ × Store
  unfolding discriminant
  get_and_reset_ticker_count s t m =
      let (n, x) = C.get_and_reset_ticker_count (discriminant t) (m s.rep) in (n, set s.rep x m)

module _ (C : Counters) (s : Statistics) (t : Tickers) (m : Store C) where
  discriminant-ne : (u : Tickers) → u ≢ t → (discriminant t == discriminant u) ≡ false
  discriminant-ne u ne = elim (Bool-cases (discriminant t == discriminant u)) [
    | inl same ↦ absurd (ne (ticker_discriminant-injective u t (ground (arith, same))))
    | inr differ ↦ differ
  ]

  -- What is read through any handle after another count of the object of `s` was changed.
  kept_lem :
      (x : C.Stats) (r : Statistics) (u : Tickers)
      → (r.rep ≡ s.rep → u ≢ t)
      → (u ≢ t
          → C.get_ticker_count (discriminant u) x ≡ C.get_ticker_count (discriminant u) (m s.rep))
      → get_ticker_count C r u (set C s.rep x m) ≡ get_ticker_count C r u m
  unfolding get_ticker_count
  kept_lem x r u apart same = elim (Bool-cases (s.rep == r.rep)) [
    | inl here ↦ ground (arith, here, same (apart (ground (arith, here))))
    | inr away ↦ ground (arith, away)
  ]

  -- Recording, setting and resetting a ticker change its count, as every clone of the handle sees,
  -- to the sum modulo 2^64, to the value set and to 0; the reset answers the count before.
  pub get_ticker_count-record_set_reset :
      (n : ℕ)
      → (get_ticker_count C (clone s) t (record_tick C s t n m)
          ≡ (get_ticker_count C s t m + n) % 2 ^ 64)
        × (get_ticker_count C (clone s) t (set_ticker_count C s t n m) ≡ n)
        × ((get_and_reset_ticker_count C s t m).0 ≡ get_ticker_count C s t m)
        × (get_ticker_count C (clone s) t (get_and_reset_ticker_count C s t m).1 ≡ 0)
  unfolding get_ticker_count record_tick set_ticker_count get_and_reset_ticker_count clone
  get_ticker_count-record_set_reset n =
      let d = discriminant t in
      (
        ground (arith, C.get-record_tick d d n (m s.rep)),
        ground (arith, C.get-set_ticker_count d d n (m s.rep)),
        (C.get-get_and_reset d d (m s.rep)).0,
        ground (arith, (C.get-get_and_reset d d (m s.rep)).1),
      )

  -- Recording, setting and resetting a ticker change no other count: neither that of another
  -- ticker of the same object, nor any count of another object.
  pub get_ticker_count-others :
      (n : ℕ) (r : Statistics) (u : Tickers)
      → (r.rep ≡ s.rep → u ≢ t)
      → (get_ticker_count C r u (record_tick C s t n m) ≡ get_ticker_count C r u m)
        × (get_ticker_count C r u (set_ticker_count C s t n m) ≡ get_ticker_count C r u m)
        × (get_ticker_count C r u (get_and_reset_ticker_count C s t m).1 ≡ get_ticker_count C r u m)
  unfolding record_tick set_ticker_count get_and_reset_ticker_count
  get_ticker_count-others n r u apart =
      let d = discriminant t in
      let e = discriminant u in
      (
        kept_lem (C.record_tick d n (m s.rep)) r u apart
            λ ne. ground (arith, C.get-record_tick d e n (m s.rep), discriminant-ne u ne),
        kept_lem (C.set_ticker_count d n (m s.rep)) r u apart
            λ ne. ground (arith, C.get-set_ticker_count d e n (m s.rep), discriminant-ne u ne),
        kept_lem (C.get_and_reset_ticker_count d (m s.rep)).1 r u apart
            λ ne. ground (arith, (C.get-get_and_reset d e (m s.rep)).1, discriminant-ne u ne),
      )

  -- Recording, setting and resetting a ticker change its count, as every clone of the handle sees,
  -- to the sum modulo 2^64, to the value set and to 0; the reset answers the count before. They
  -- change no other count: neither that of another ticker of the same object, nor any count of
  -- another object.
  pub get_ticker_count-outcome :
      (n : ℕ) (r : Statistics) (u : Tickers)
      → (r.rep ≡ s.rep → u ≢ t)
      → ((get_ticker_count C (clone s) t (record_tick C s t n m)
            ≡ (get_ticker_count C s t m + n) % 2 ^ 64)
          × (get_ticker_count C (clone s) t (set_ticker_count C s t n m) ≡ n)
          × ((get_and_reset_ticker_count C s t m).0 ≡ get_ticker_count C s t m)
          × (get_ticker_count C (clone s) t (get_and_reset_ticker_count C s t m).1 ≡ 0))
        × (get_ticker_count C r u (record_tick C s t n m) ≡ get_ticker_count C r u m)
        × (get_ticker_count C r u (set_ticker_count C s t n m) ≡ get_ticker_count C r u m)
        × (get_ticker_count C r u (get_and_reset_ticker_count C s t m).1 ≡ get_ticker_count C r u m)
  get_ticker_count-outcome n r u apart =
      let (recorded, set, reset) = get_ticker_count-others n r u apart in
      (get_ticker_count-record_set_reset n, recorded, set, reset)
