-- ===== src/History/Recorded.antt =====
-- What the recorder saves of a minute, and how it leaves the stocks.
use dalal_street_server.Base.{
  ℕ, ◌≡◌, ◌==◌, refl, ap, true, false, some, List, [], ◌∷◌, All, arith, Returns, returns,
  bind-Returns, split_if, assign-cases, map, inl, inr, Bool-cases,
}
use dalal_street_server.Stock.{Stock}
use dalal_street_server.Stock.Floor.{Floor, set_stock}
use dalal_street_server.Stock.Bounds.{Within, IsPriced}
use dalal_street_server.Account.State.{Server}
use dalal_street_server.History.{StockHistory, Recorder, history_point}
use dalal_street_server.History.Minute.{
  current_minute, next_minute, Sent, record_stock, record_stocks, record_one_minute,
}

-- The opening price lies in the range of the minute too.
abbrev pub Opened : {Float : Type 0} → Stock Float → Type 0
Opened stock = IsPriced stock × Within stock.low stock.opening stock.high

-- The prices of a point lie between its low and its high.
abbrev pub IsRange : StockHistory → Type 0
IsRange p = Within p.low p.opening p.high × Within p.low p.closing p.high

next_minute-Opened :
    {Float : Type 0} (stock : Stock Float) → Opened stock → Opened (next_minute stock)
unfolding next_minute
next_minute-Opened stock (p, opened) = (
  record { day = p.day; minute = (omega arith, omega arith); ever = p.ever },
  (omega arith, omega arith),
)

module _ (s : Server) (recorder : Recorder s.World) where
  abbrev pub AllOpened : Floor s → Type 0
  AllOpened f = (j : ℕ) (stock : Stock s.floats.Float) → f.all_stocks j ≡ some stock → Opened stock

  -- The keys are those of stocks in memory.
  abbrev pub AllListed : List ℕ → Floor s → Type 0
  AllListed ids f = All (λ id. (stock : Stock s.floats.Float) × (f.all_stocks id ≡ some stock)) ids

  set_stock-Opened :
      (f : Floor s) (id : ℕ) (stock : Stock s.floats.Float)
      → Opened stock
      → AllOpened f
      → AllOpened (set_stock f id stock)
  set_stock-Opened f id stock p all j found e =
      assign-cases Opened (id == j) stock found (f.all_stocks j) p (all j found) e

  set_stock-AllListed :
      (f : Floor s) (id : ℕ) (stock : Stock s.floats.Float) (ids : List ℕ)
      → AllListed ids f
      → AllListed ids (set_stock f id stock)
  set_stock-AllListed f id stock [] all = tt
  set_stock-AllListed f id stock (j ∷ ids) ((x, e), all) = (
    elim (Bool-cases (id == j)) [ inl h ↦ (stock, rw h refl) | inr h ↦ (x, rw h e) ],
    set_stock-AllListed f id stock ids all,
  )

  abbrev pub MinuteRecorded : List ℕ → Sent s recorder → Type 0
  MinuteRecorded ids (ok, points, f) =
      All IsRange points × AllOpened f × (ok ≡ true → map (λ p. p.stock_id) points ≡ ids)

  record_stocks-MinuteRecorded :
      (now : recorder.Time) (ids : List ℕ) (f : Floor s)
      → AllOpened f
      → AllListed ids f
      → Returns (MinuteRecorded ids) (record_stocks s recorder now ids f)
  unfolding record_stocks record_stock history_point
  record_stocks-MinuteRecorded now [] f opened listed = returns (tt, opened, λ _. refl)
  record_stocks-MinuteRecorded now (id ∷ ids) f opened ((stock, e), listed) =
      let p = history_point id 1 (recorder.format now) (current_minute stock) in
      let own = opened id stock e in
      let f' = set_stock f id (next_minute stock) in
      let opened' = set_stock-Opened f id _ (next_minute-Opened stock own) opened in
      let (w, ok) = recorder.save_history f.world p in
      rw e (
        split_if (Returns (MinuteRecorded (id ∷ ids))) ok
          (λ _.
            bind-Returns
              (record_stocks-MinuteRecorded now ids (record f' { world = w }) opened'
                (set_stock-AllListed f id _ ids listed))
              (λ r (ranges, after, sent).
                returns (((own.1, own.0.minute), ranges), after, λ h. ap (λ xs. id ∷ xs) (sent h))))
          (λ h. returns (tt, opened', λ yes_ok. absurd (cc))))

  -- On stocks whose prices lie between the lows and highs of the day, of the minute and of all times,
  -- and whose opening price lies in the minute's range, recordOneMinuteOHLC returns. Every point that
  -- it sends has its opening and closing price between its low and its high, the stocks are such
  -- stocks afterwards, and if there was no error, one point is sent for each stock.
  pub record_one_minute-MinuteRecorded :
      (now : recorder.Time) (ids : List ℕ) (f : Floor s)
      → f.locked ≡ false
      → AllOpened f
      → AllListed ids f
      → Returns (MinuteRecorded ids) (record_one_minute s recorder now ids f)
  unfolding record_one_minute
  record_one_minute-MinuteRecorded now ids f free opened listed =
      simp free (record_stocks-MinuteRecorded now ids f opened listed)
