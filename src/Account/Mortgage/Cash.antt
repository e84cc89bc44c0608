-- ===== src/Account/Mortgage/Cash.antt =====
-- The cash of a mortgage and of the retrieval of what was mortgaged.
use dalal_street_server.Base.{ℕ, ◌+◌, ◌-◌, ◌*◌, ◌/◌, ◌≤◌, ◌<◌, ◌≡◌, sym, ap, ◌%◌, ◌∙◌, arith}
use native.Mathlib.Nat.{add-mul, mul-pos, mul-le-mul_left}
use dalal_street_server.Base.Word.{word_mod, half_word, add64, mul64, neg64, is_negative}
use dalal_street_server.Account.Mortgage.Bank.{percent, mortgage_total, retrieve_total}

percent_small : (n : ℕ) → n < half_word → percent n ≡ n / 100
unfolding percent is_negative
percent_small n h = ground arith

percent_negative : (n : ℕ) → n < half_word → 0 < n → percent (neg64 n) ≡ neg64 (n / 100)
unfolding percent is_negative neg64
percent_negative n h k = ground arith

negated :
    (price quantity : ℕ)
    → price ≤ word_mod
    → (word_mod - price) * quantity + price * quantity ≡ word_mod * quantity
negated price quantity h =
    let whole : word_mod - price + price ≡ word_mod = omega arith in
    sym (add-mul (word_mod - price) price quantity) ∙ ap (λ n. n * quantity) whole

mul64-neg64 :
    (price quantity : ℕ)
    → 0 < price
    → price < word_mod
    → price * quantity < word_mod
    → mul64 (neg64 price) quantity ≡ neg64 (price * quantity)
unfolding mul64 neg64
mul64-neg64 price quantity pos small fits =
    let first : (word_mod - price) % word_mod ≡ word_mod - price = omega arith in
    ap (λ n. (n * quantity) % word_mod) first ∙ omega (arith, negated price quantity (omega arith))

mortgage_exact :
    (price quantity : ℕ)
    → price * quantity * 90 < half_word
    → mortgage_total price quantity ≡ price * quantity * 80 / 100
unfolding mortgage_total mul64
mortgage_exact price quantity fits =
    let product : mul64 price quantity ≡ price * quantity = omega arith in
    ap (λ n. percent (mul64 n 80)) product ∙ percent_small _ (omega arith) ∙ omega arith

retrieve_exact :
    (price quantity : ℕ)
    → 0 < price
    → 0 < quantity
    → price * quantity * 90 < half_word
    → retrieve_total price quantity ≡ neg64 (price * quantity * 90 / 100)
unfolding retrieve_total
retrieve_exact price quantity pos some_stock fits =
    let n : ℕ = price * quantity in
    let above : price * 1 ≤ price * quantity = mul-le-mul_left price some_stock in
    let n_pos : 0 < n = mul-pos pos some_stock in
    let first : mul64 (neg64 price) quantity ≡ neg64 n =
      mul64-neg64 price quantity pos (omega arith) (omega arith) in
    ap (λ k. percent (mul64 k 90)) first
    ∙ ap percent (mul64-neg64 n 90 n_pos (omega arith) (omega arith))
    ∙ percent_negative (n * 90) fits (omega arith)

-- Whoever mortgages stocks and retrieves them at the same price has 10 percent of the price less
-- cash than before, up to rounding, where no number leaves its type and the cash covers the retrieval.
pub retrieve-mortgage :
    (price quantity cash : ℕ)
    → 0 < price
    → 0 < quantity
    → price * quantity * 90 < half_word
    → cash + price * quantity < word_mod
    → price * quantity * 90 / 100 ≤ cash + price * quantity * 80 / 100
    → add64 (add64 cash (mortgage_total price quantity)) (retrieve_total price quantity)
      ≡ cash + price * quantity * 80 / 100 - price * quantity * 90 / 100
unfolding add64 neg64
retrieve-mortgage price quantity cash pos some_stock fits small covered =
    rw (mortgage_exact price quantity fits, retrieve_exact price quantity pos some_stock fits)
      (omega arith)
