-- ===== src/Order/Comparator.antt =====
-- matchingengine/pqueue.go: the factors of an order, the two comparators and the choice between
-- them. `bid_comparator a b` says that `a` comes after `b`.
use dalal_street_server.Base.{
  ℕ, ◌≡◌, Bool, true, false, List, ◌&&◌, arith, ltb, ◌==◌, if◌then◌else◌,
}
use dalal_street_server.Base.Bytes.{bytes_lt, bytes_ge_trans, bytes_lt_asym}
use dalal_street_server.Order.{OrderType, is_market}

pub data PqType : Type 0 where
  max_pq min_pq : PqType

pub record Factors : Type 0 where
  pub order_type : OrderType
  pub price : ℕ
  pub placed_at : List ℕ
  pub quantity : ℕ

unfoldable pub bid_comparator : Factors → Factors → Bool
bid_comparator a b =
    if is_market a.order_type && is_market b.order_type
    then bytes_lt b.placed_at a.placed_at
    else if is_market a.order_type
    then false
    else if is_market b.order_type
    then true
    else if a.price == b.price
    then ltb a.quantity b.quantity
    else ltb a.price b.price

unfoldable pub ask_comparator : Factors → Factors → Bool
ask_comparator a b =
    if is_market a.order_type && is_market b.order_type
    then bytes_lt b.placed_at a.placed_at
    else if is_market a.order_type
    then false
    else if is_market b.order_type
    then true
    else if a.price == b.price
    then ltb a.quantity b.quantity
    else ltb b.price a.price

unfoldable pub comparator : PqType → Factors → Factors → Bool
unfolding bid_comparator ask_comparator
comparator PqType.max_pq = bid_comparator
comparator PqType.min_pq = ask_comparator

bid_comparator_negative_trans :
    (a b c : Factors)
    → bid_comparator a b ≡ false
    → bid_comparator b c ≡ false
    → bid_comparator a c ≡ false
unfolding bid_comparator
bid_comparator_negative_trans a b c p q =
    ground (arith, bytes_ge_trans c.placed_at b.placed_at a.placed_at)

ask_comparator_negative_trans :
    (a b c : Factors)
    → ask_comparator a b ≡ false
    → ask_comparator b c ≡ false
    → ask_comparator a c ≡ false
unfolding ask_comparator
ask_comparator_negative_trans a b c p q =
    ground (arith, bytes_ge_trans c.placed_at b.placed_at a.placed_at)

-- "Does not come after" is transitive, for both kinds of queue.
pub comparator_negative_trans :
    (t : PqType) (a b c : Factors)
    → comparator t a b ≡ false
    → comparator t b c ≡ false
    → comparator t a c ≡ false
unfolding comparator
comparator_negative_trans PqType.max_pq = bid_comparator_negative_trans
comparator_negative_trans PqType.min_pq = ask_comparator_negative_trans

bid_comparator_asym : (a b : Factors) → bid_comparator a b ≡ true → bid_comparator b a ≡ false
unfolding bid_comparator
bid_comparator_asym a b p = ground (arith, bytes_lt_asym b.placed_at a.placed_at)

ask_comparator_asym : (a b : Factors) → ask_comparator a b ≡ true → ask_comparator b a ≡ false
unfolding ask_comparator
ask_comparator_asym a b p = ground (arith, bytes_lt_asym b.placed_at a.placed_at)

-- Two orders never come after one another.
pub comparator_asym :
    (t : PqType) (a b : Factors) → comparator t a b ≡ true → comparator t b a ≡ false
unfolding comparator
comparator_asym PqType.max_pq = bid_comparator_asym
comparator_asym PqType.min_pq = ask_comparator_asym
