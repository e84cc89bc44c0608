-- ===== src/History/Candle.antt =====
-- The prices of an interval against the records that lie in it.
use dalal_street_server.Base.{
  ℕ, zero, suc, ◌%◌, ◌<◌, ◌≤◌, ◌≡◌, ◌≢◌, refl, sym, subst, true, false, Option, none, some, List,
  [], ◌∷◌, length, if◌then◌else◌, All, arith, Returns, returns, bind-Returns, weaken-Returns,
  Bool-cases, inl, inr, ◌∙◌,
}
use dalal_street_server.Base.Word.{word_mod}
use dalal_street_server.Base.Bytes.{bytes_lt, bytes_ge_trans}
use dalal_street_server.History.{StockHistory, Ohlcv, Recorder, history_point}
use dalal_street_server.History.Widened.{volumes, Widened, first_records, widen_by-Widened}
use dalal_street_server.History.Interval.{
  last_index, last_later, limited_range, record_at, ohlcv_record, save_point, record_n_minutes,
}

-- The records that are later than the limit.
unfoldable pub later : List ℕ → List StockHistory → List StockHistory
later limit [] = []
later limit (r ∷ records) =
    let rest = later limit records in if bytes_lt limit r.created_at then r ∷ rest else rest

-- No record is later than one before it.
abbrev pub LatestFirst : List StockHistory → Type 0
LatestFirst [] = Unit
LatestFirst (r ∷ records) =
    All (λ q. bytes_lt r.created_at q.created_at ≡ false) records × LatestFirst records

module _ (limit : List ℕ) where
  -- The first records up to the index are the later ones, and the index is in range.
  abbrev Found : List StockHistory → Option ℕ → Type 0
  Found records none = later limit records ≡ []
  Found records (some i) =
      (first_records i records ≡ later limit records)
      × (i < length records)
      × (later limit records ≢ [])

  not_before :
      (q r : StockHistory)
      → bytes_lt q.created_at r.created_at ≡ false
      → bytes_lt limit r.created_at ≡ true
      → bytes_lt limit q.created_at ≡ true
  not_before q r before is_later = elim (Bool-cases (bytes_lt limit q.created_at)) [
    | inl e ↦ e
    | inr e ↦ absurd (ground (arith, bytes_ge_trans limit q.created_at r.created_at e before))
  ]

  -- A record before a later one is later.
  later_before :
      (q : StockHistory) (records : List StockHistory)
      → All (λ r. bytes_lt q.created_at r.created_at ≡ false) records
      → later limit records ≢ []
      → bytes_lt limit q.created_at ≡ true
  unfolding later
  later_before q [] all e = absurd (e refl)
  later_before q (r ∷ records) (h, all) e = elim (Bool-cases (bytes_lt limit r.created_at)) [
    | inl is_later ↦ not_before q r h is_later
    | inr old ↦ later_before q records all (λ none_left. e (rw (old, none_left) refl))
  ]

  cons-Found :
      (r : StockHistory) (records : List StockHistory) (o : Option ℕ)
      → All (λ q. bytes_lt r.created_at q.created_at ≡ false) records
      → Found records o
      → Found (r ∷ records) (last_index o (bytes_lt limit r.created_at))
  unfolding last_index later first_records
  cons-Found r records none before found = elim (Bool-cases (bytes_lt limit r.created_at)) [
    | inl is_later ↦ rw (is_later, is_later, found) (refl, omega arith, λ e. cc)
    | inr old ↦ rw (old, old, found) refl
  ]
  cons-Found r records (some i) before (first, within, more) =
      rw (later_before r records before more, first) (refl, omega arith, λ e. cc)

  last_later-Found :
      (records : List StockHistory) → LatestFirst records → Found records (last_later limit records)
  unfolding last_later later
  last_later-Found [] sorted = refl
  last_later-Found (r ∷ records) (before, sorted) =
      cons-Found r records _ before (last_later-Found records sorted)

abbrev pub last_of : List StockHistory → Option StockHistory
last_of [] = none
last_of (r ∷ []) = some r
last_of (r ∷ q ∷ records) = last_of (q ∷ records)

-- The prices of the records that are later than the limit, the latest of which stands first.
pub record IsCandle (limit : List ℕ) (records : List StockHistory) (o : Ohlcv) : Type 0 where
  pub opens :
      (r : StockHistory) × (last_of (later limit records) ≡ some r) × (o.opening ≡ r.opening)
  pub closes : (r : StockHistory) × (record_at 0 records ≡ some r) × (o.closing ≡ r.closing)
  pub highs : (o.opening ≤ o.high) × All (λ r. r.high ≤ o.high) (later limit records)
  pub lows : (o.low ≤ o.opening) × All (λ r. o.low ≤ r.low) (later limit records)
  pub least : (b : ℕ) → o.opening ≤ b → All (λ r. r.high ≤ b) (later limit records) → o.high ≤ b
  pub greatest : (b : ℕ) → b ≤ o.opening → All (λ r. b ≤ r.low) (later limit records) → b ≤ o.low
  pub volume : o.volume ≡ volumes (later limit records) % word_mod

last-first_records :
    (i : ℕ) (records : List StockHistory)
    → i < length records
    → (r : StockHistory) × (record_at i records ≡ some r)
      × (last_of (first_records i records) ≡ some r)
unfolding record_at first_records
last-first_records i [] h = absurd (omega arith)
last-first_records zero (r ∷ records) h = (r, refl, refl)
last-first_records (suc i) (r ∷ []) h = absurd (omega arith)
last-first_records (suc zero) (r ∷ q ∷ records) h = (q, refl, refl)
last-first_records (suc (suc i)) (r ∷ q ∷ records) h =
    last-first_records (suc i) (q ∷ records) (omega arith)

module _ (limit : List ℕ) (r : StockHistory) (records : List StockHistory) where
  start : StockHistory → Ohlcv
  start first = record {
    opening = first.opening;
    high = first.opening;
    low = first.opening;
    closing = r.closing;
    volume = 0;
  }

  Widened-IsCandle :
      (first : StockHistory) (o : Ohlcv)
      → last_of (later limit (r ∷ records)) ≡ some first
      → Widened (later limit (r ∷ records)) (start first) o
      → IsCandle limit (r ∷ records) o
  unfolding start record_at
  Widened-IsCandle first o e w = record {
    opens = (first, e, w.opening);
    closes = (r, refl, w.closing);
    highs = (subst (λ x. x ≤ o.high) (sym w.opening) w.highs.0, w.highs.1);
    lows = (subst (λ x. o.low ≤ x) (sym w.opening) w.lows.0, w.lows.1);
    least = λ b p. w.least b (subst (λ x. x ≤ b) w.opening p);
    greatest = λ b p. w.greatest b (subst (λ x. b ≤ x) w.opening p);
    volume = w.volume ∙ omega arith;
  }

  ohlcv-IsCandle :
      (i : ℕ)
      → limited_range limit (r ∷ records) ≡ i
      → first_records i (r ∷ records) ≡ later limit (r ∷ records)
      → i < length (r ∷ records)
      → Returns (IsCandle limit (r ∷ records)) (ohlcv_record limit (r ∷ records))
  unfolding ohlcv_record record_at start
  ohlcv-IsCandle i e same within =
      let (first, at, last) = last-first_records i (r ∷ records) within in
      rw (e, at)
        (weaken-Returns
          (λ o w.
            Widened-IsCandle first o (rw (← same) last)
              (subst (λ used. Widened used (start first) o) same w))
          (widen_by-Widened i (r ∷ records) (start first) within))

  located-IsCandle :
      (o : Option ℕ)
      → last_later limit (r ∷ records) ≡ o
      → Found limit (r ∷ records) o
      → later limit (r ∷ records) ≢ []
      → Returns (IsCandle limit (r ∷ records)) (ohlcv_record limit (r ∷ records))
  unfolding limited_range
  located-IsCandle none e found more = absurd (more found)
  located-IsCandle (some i) e (first, within, _) more =
      ohlcv-IsCandle i (rw (limited_range, e) refl) first within

module _ {World : Type 0} (recorder : Recorder World) where
  -- recordNMinuteOHLC saves and sends one point, for the records in the interval. The records are
  -- given latest first, and the first of them is in the interval. The point then opens with the
  -- earliest of them in the interval and closes with the latest; its high is the least and its low the
  -- greatest number that covers the opening price and theirs, and its volume is the sum of theirs
  -- modulo 2 ^ 64. If the save fails, nothing is sent.
  pub record_n_minutes-IsCandle :
      (stock_id n : ℕ) (r : StockHistory) (records : List StockHistory) (now : recorder.Time)
      (w : World)
      → let limit = recorder.format (recorder.earlier now n) in
        LatestFirst (r ∷ records)
        → bytes_lt limit r.created_at ≡ true
        → Returns
            (λ (ok, points, w').
              (o : Ohlcv) × IsCandle limit (r ∷ records) o
              × (points
                  ≡ (if ok then history_point stock_id n (recorder.format now) o ∷ [] else [])))
            (record_n_minutes recorder stock_id (r ∷ records) n now w)
  unfolding record_n_minutes save_point later
  record_n_minutes-IsCandle stock_id n r records now w sorted is_later =
      bind-Returns
        (located-IsCandle _ r records _ refl (last_later-Found _ (r ∷ records) sorted)
          (rw is_later (λ e. cc)))
        (λ o p. returns (o, p, refl))
