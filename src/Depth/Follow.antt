-- ===== src/Depth/Follow.antt =====
-- What a listener knows: it adds each broadcast change to the quantities it has. A run of the stream
-- is a list of calls and rounds of `run`.
use dalal_street_server.Base.{ℕ, ◌≡◌, Bool, true, false, Option, none, some, List, [], ◌∷◌, arith}
use dalal_street_server.Base.Word.{add64, sub64}
use dalal_street_server.Depth.Table.{get}
use dalal_street_server.Depth.{
  Depth, SideDepth, DepthUpdate, add_at, add_order, close_at, close_order, add_trade, flush,
}
use dalal_street_server.Depth.Close.{side, get-add_at, get-close_at}

pub data Event : Type 0 where
  adds : Bool → Bool → ℕ → ℕ → Event
  closes : Bool → Bool → ℕ → ℕ → Event
  trades : ℕ → ℕ → List ℕ → Event
  round : ℕ → Event

-- A listener's quantities, for asks (`true`) and bids (`false`).
abbrev pub View : Type 0
View = Bool → ℕ → ℕ

abbrev apply : View → DepthUpdate → View
apply v u true p = add64 (v true p) (get u.ask_depth p)
apply v u false p = add64 (v false p) (get u.bid_depth p)

abbrev receive : View → Option DepthUpdate → View
receive v none = v
receive v (some u) = apply v u

unfoldable pub event_step : Event → View × Depth → View × Depth
event_step (adds m a p q) (v, d) = (v, add_order d m a p q)
event_step (closes m a p q) (v, d) = (v, close_order d m a p q)
event_step (trades p q t) (v, d) = (v, add_trade d p q t)
event_step (round n) (v, d) = let (u, d') = flush n d in (receive v u, d')

unfoldable pub events : List Event → View × Depth → View × Depth
unfolding event_step
events [] s = s
events (e ∷ es) s = events es (event_step e s)

-- The view, with the changes that are still to be sent, is the depth.
abbrev pub IsSynced : (ℕ → ℕ) → SideDepth → Type 0
IsSynced v s = (p : ℕ) → get s.depth p ≡ add64 (v p) (get s.diff p)

abbrev pub Follows : View × Depth → Type 0
Follows s = (a : Bool) → IsSynced (s.0 a) (side a s.1)

add_at-IsSynced :
    (v : ℕ → ℕ) (s : SideDepth) (price quantity : ℕ)
    → IsSynced v s
    → IsSynced v (add_at s price quantity)
unfolding add64
add_at-IsSynced v s price quantity h p = ground (arith, h p, get-add_at s price quantity p)

close_at-IsSynced :
    (v : ℕ → ℕ) (s : SideDepth) (price quantity : ℕ)
    → IsSynced v s
    → IsSynced v (close_at s price quantity)
unfolding add64 sub64
close_at-IsSynced v s price quantity h p = ground (arith, h p, get-close_at s price quantity p)

flush-IsSynced :
    (n : ℕ) (v : View) (d : Depth) → Follows (v, d) → Follows (event_step (round n) (v, d))
unfolding event_step flush get add64
flush-IsSynced n v d h true p = ground (arith, h true p)
flush-IsSynced n v d h false p = ground (arith, h false p)

event_step-Follows :
    (e : Event) (v : View) (d : Depth) → Follows (v, d) → Follows (event_step e (v, d))
unfolding event_step add_order close_order add_trade
event_step-Follows (adds m true price q) v d h true = add_at-IsSynced _ d.asks _ q (h true)
event_step-Follows (adds m true price q) v d h false = h false
event_step-Follows (adds m false price q) v d h true = h true
event_step-Follows (adds m false price q) v d h false = add_at-IsSynced _ d.bids _ q (h false)
event_step-Follows (closes m true price q) v d h true = close_at-IsSynced _ d.asks _ q (h true)
event_step-Follows (closes m true price q) v d h false = h false
event_step-Follows (closes m false price q) v d h true = h true
event_step-Follows (closes m false price q) v d h false = close_at-IsSynced _ d.bids _ q (h false)
event_step-Follows (trades p q t) v d h true = h true
event_step-Follows (trades p q t) v d h false = h false
event_step-Follows (round n) v d h a = flush-IsSynced n v d h a

-- Through any calls and broadcasts, what a listener has with the changes still to be sent is the
-- depth at every price, on both sides.
pub events-Follows : (es : List Event) (s : View × Depth) → Follows s → Follows (events es s)
unfolding events
events-Follows [] s h = h
events-Follows (e ∷ es) s h = events-Follows es (event_step e s) (event_step-Follows e s.0 s.1 h)
