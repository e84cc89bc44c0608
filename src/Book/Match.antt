-- ===== src/Book/Match.antt =====
-- isOrderMatching of matchingengine/helpers.go, and getTopMatchingBid with getTopMatchingAsk. The
-- closure `addBackOrders` is the list of the orders that it pushes back.
use dalal_street_server.Base.{
  ℕ, zero, suc, ◌+◌, Bool, true, Option, none, some, List, [], ◌∷◌, ◌++◌, ◌||◌, leb, ◌==◌,
  if◌then◌else◌, ◌>>=◌,
}
use dalal_street_server.Order.{Order, is_market}
use dalal_street_server.Pqueue.Defs.{head}
use dalal_street_server.Book.State.{Side, ask, bid, other, Book, push_queue, pop_queue}

unfoldable pub is_order_matching : Order → Order → Bool
is_order_matching ask_top bid_top =
    if is_market bid_top.order_type || is_market ask_top.order_type
    then true
    else leb ask_top.price bid_top.price

-- The same with the incoming order, of side `s`, first.
abbrev pub matches : Side → Order → Order → Bool
matches ask incoming top = is_order_matching incoming top
matches bid incoming top = is_order_matching top incoming

module _ {World : Type 0} where
  -- The loop that takes the user's own orders out of the queue of side `s`, from the head `top`.
  unfoldable pub skip_own :
      ℕ → Side → ℕ → Option ℕ → List ℕ → Book World → Option (Option ℕ × List ℕ × Book World)
  skip_own zero s user top own b = none
  skip_own (suc fuel) s user none own b = some (none, own, b)
  skip_own (suc fuel) s user (some t) own b =
      let next = pop_queue s b >>= λ (r, b'). elim r [
        | none ↦ none
        | some i ↦ head (b'.queue s) >>= λ h. skip_own fuel s user h (own ++ i ∷ []) b'
      ] in
      if (b.orders s t).user_id == user then next else some (some t, own, b)

  unfoldable pub add_back : Side → List ℕ → Book World → Option (Book World)
  add_back s [] b = some b
  add_back s (i ∷ own) b = push_queue s i b >>= add_back s own

  abbrev no_match : Side → List ℕ → Book World → Option (Option ℕ × List ℕ × Book World)
  no_match s own b = add_back s own b >>= λ b'. some (none, [], b')

  -- What is done with the head `top` of the orders of other users.
  unfoldable pub choose_top :
      Side → Order → Option ℕ → List ℕ → Book World → Option (Option ℕ × List ℕ × Book World)
  choose_top s incoming none own b = no_match (other s) own b
  choose_top s incoming (some t) own b =
      if matches s incoming (b.orders (other s) t)
      then some (some t, own, b)
      else no_match (other s) own b

  -- The top matching order for the order `id` of side `s`, with the orders to add back.
  unfoldable pub get_top_matching : Side → ℕ → Book World → Option (Option ℕ × List ℕ × Book World)
  get_top_matching s id b = do
    h ← head (b.queue (other s))
    let incoming = b.orders s id
    (top, own, b') ←
        skip_own ((b.queue (other s)).elems_count + 1) (other s) incoming.user_id h [] b
    choose_top s incoming top own b'
