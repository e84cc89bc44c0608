-- ===== src/History/Widened.antt =====
-- The prices and the volume of an interval after the loop over its records.
use dalal_street_server.Base.{
  ℕ, zero, suc, ◌+◌, ◌%◌, ◌<◌, ◌≤◌, ◌≡◌, refl, List, [], ◌∷◌, length, All, arith, Returns, returns,
  weaken-Returns, ◌∙◌,
}
use dalal_street_server.Base.Word.{add64, word_mod}
use dalal_street_server.History.{StockHistory, Ohlcv}
use dalal_street_server.History.Interval.{widen, widen_by}

abbrev pub volumes : List StockHistory → ℕ
volumes [] = 0
volumes (r ∷ records) = r.volume + volumes records

-- `o` is `a` widened by the records: the least high and the greatest low that cover them, and the
-- volumes added up modulo 2 ^ 64.
pub record Widened (used : List StockHistory) (a o : Ohlcv) : Type 0 where
  pub opening : o.opening ≡ a.opening
  pub closing : o.closing ≡ a.closing
  pub highs : (a.high ≤ o.high) × All (λ r. r.high ≤ o.high) used
  pub lows : (o.low ≤ a.low) × All (λ r. o.low ≤ r.low) used
  pub least : (b : ℕ) → a.high ≤ b → All (λ r. r.high ≤ b) used → o.high ≤ b
  pub greatest : (b : ℕ) → b ≤ a.low → All (λ r. b ≤ r.low) used → b ≤ o.low
  pub volume : o.volume ≡ (a.volume + volumes used) % word_mod

unfoldable pub first_records : ℕ → List StockHistory → List StockHistory
first_records n [] = []
first_records zero (r ∷ records) = r ∷ []
first_records (suc n) (r ∷ records) = r ∷ first_records n records

widen-Widened :
    (r : StockHistory) (used : List StockHistory) (a o : Ohlcv)
    → Widened used (widen r a) o
    → Widened (r ∷ used) a o
unfolding widen add64
widen-Widened r used a o w = record {
  opening = w.opening;
  closing = w.closing;
  highs = ground (arith, w.highs);
  lows = ground (arith, w.lows);
  least = λ b p all. w.least b (ground arith) all.1;
  greatest = λ b p all. w.greatest b (ground arith) all.1;
  volume = w.volume ∙ omega arith;
}

one-Widened : (r : StockHistory) (a : Ohlcv) → Widened (r ∷ []) a (widen r a)
unfolding widen add64
one-Widened r a = record {
  opening = refl;
  closing = refl;
  highs = ground arith;
  lows = ground arith;
  least = λ b p all. ground arith;
  greatest = λ b p all. ground arith;
  volume = omega arith;
}

pub widen_by-Widened :
    (n : ℕ) (records : List StockHistory) (a : Ohlcv)
    → n < length records
    → Returns (Widened (first_records n records) a) (widen_by n records a)
unfolding widen_by first_records
widen_by-Widened n [] a h = absurd (omega arith)
widen_by-Widened zero (r ∷ records) a h = returns (one-Widened r a)
widen_by-Widened (suc n) (r ∷ records) a h =
    weaken-Returns (λ o w. widen-Widened r _ a o w)
      (widen_by-Widened n records (widen r a) (omega arith))
