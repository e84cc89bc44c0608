-- ===== src/Depth/Trades.antt =====
-- AddTrade: the list of latest trades is the end of the history.
use mathlib.Core.List.{append-nil, append_assoc}
use dalal_street_server.Base.{
  ℕ, zero, suc, ◌+◌, ◌-◌, ◌≤◌, ◌≡◌, refl, sym, ap, ◌∙◌, List, [], ◌∷◌, ◌++◌, arith, length, leb,
  Bool-cases, inl, inr, if◌then◌else◌,
}
use dalal_street_server.Depth.{Trade, Depth, empty, drop, add_trade}

-- The last `n` elements.
abbrev pub last_of : {A : Type 0} → ℕ → List A → List A
last_of n xs = drop (length xs - n) xs

module _ {A : Type 0} where
  drop-zero : (xs : List A) → drop 0 xs ≡ xs
  drop-zero [] = refl
  drop-zero (x ∷ xs) = refl

  length-drop : (n : ℕ) (xs : List A) → length (drop n xs) ≡ length xs - n
  length-drop n [] = omega arith
  length-drop zero (x ∷ xs) = omega arith
  length-drop (suc n) (x ∷ xs) = omega (arith, length-drop n xs)

  drop-drop : (m n : ℕ) (xs : List A) → drop m (drop n xs) ≡ drop (n + m) xs
  drop-drop m n [] = refl
  drop-drop m zero (x ∷ xs) = ap (λ k. drop k (x ∷ xs)) (omega arith)
  drop-drop m (suc n) (x ∷ xs) =
      drop-drop m n xs ∙ ap (λ k. drop k (x ∷ xs)) {x = suc (n + m)} (omega arith)

  drop-append : (n : ℕ) (xs ys : List A) → n ≤ length xs → drop n (xs ++ ys) ≡ drop n xs ++ ys
  drop-append zero xs ys h = drop-zero (xs ++ ys) ∙ ap (λ l. l ++ ys) (sym (drop-zero xs))
  drop-append (suc n) [] ys h = absurd (omega arith)
  drop-append (suc n) (x ∷ xs) ys h = drop-append n xs ys (omega arith)

  pub length-append : (xs ys : List A) → length (xs ++ ys) ≡ length xs + length ys
  length-append [] ys = omega arith
  length-append (x ∷ xs) ys = omega (arith, length-append xs ys)

-- AddTrade for each trade of a list, the oldest first.
pub add_trades : Depth → List Trade → Depth
add_trades d [] = d
add_trades d (t ∷ ts) = add_trades (add_trade d t.trade_price t.trade_quantity t.trade_time) ts

kept-last_of :
    {A : Type 0} (h l : List A)
    → l ≡ last_of 21 h
    → (if leb 20 (length l) then drop (length l - 20) l else l) ≡ drop (length h - 20) h
kept-last_of h l e =
    let size : length l ≡ length h - (length h - 21) = ap length e ∙ length-drop _ h in
    elim (Bool-cases (leb 20 (length l))) [
      | inl b ↦ rw b (
          ap (drop (length l - 20)) e
          ∙ drop-drop (length l - 20) (length h - 21) h
          ∙ ap (λ k. drop k h) (ground arith))
      | inr b ↦ rw b (e ∙ ap (λ k. drop k h) (ground arith))
    ]

add_trade-last_of :
    (d : Depth) (t : Trade) (h : List Trade)
    → d.latest_trades ≡ last_of 21 h
    → (add_trade d t.trade_price t.trade_quantity t.trade_time).latest_trades
      ≡ last_of 21 (h ++ t ∷ [])
unfolding add_trade
add_trade-last_of d t h e =
    ap (λ l. l ++ t ∷ []) (kept-last_of h d.latest_trades e)
    ∙ sym (drop-append (length h - 20) h (t ∷ []) (omega arith))
    ∙ ap (λ k. drop k (h ++ t ∷ [])) (omega (arith, length-append h (t ∷ [])))

add_trades-last_of :
    (d : Depth) (h ts : List Trade)
    → d.latest_trades ≡ last_of 21 h
    → (add_trades d ts).latest_trades ≡ last_of 21 (h ++ ts)
unfolding add_trades
add_trades-last_of d h [] e = e ∙ ap (last_of 21) (sym (append-nil h))
add_trades-last_of d h (t ∷ ts) e =
    add_trades-last_of (add_trade d t.trade_price t.trade_quantity t.trade_time) (h ++ t ∷ []) ts
      (add_trade-last_of d t h e)
    ∙ ap (last_of 21) (append_assoc h (t ∷ []) ts)

add_trades-diff :
    (d : Depth) (ts : List Trade)
    → (add_trades d ts).latest_trades_diff ≡ d.latest_trades_diff ++ ts
unfolding add_trades add_trade
add_trades-diff d [] = sym (append-nil d.latest_trades_diff)
add_trades-diff d (t ∷ ts) =
    add_trades-diff (add_trade d t.trade_price t.trade_quantity t.trade_time) ts
    ∙ append_assoc d.latest_trades_diff (t ∷ []) ts

-- From an empty stream the latest trades are always the last 21 of the trades that were added, in
-- their order, and those that wait for a broadcast are all of them.
pub latest_trades-last_of :
    (ts : List Trade)
    → ((add_trades empty ts).latest_trades ≡ last_of 21 ts)
      × ((add_trades empty ts).latest_trades_diff ≡ ts)
unfolding empty
latest_trades-last_of ts = (add_trades-last_of _ [] ts refl, add_trades-diff _ ts)
