-- ===== src/Pqueue.antt =====
-- matchingengine/pqueue.go: the priority queue of orders. Go has one copy for bids and one for asks
-- (`bidPQueue`, `askPQueue`), with the same text but for the types; there is one here. An item
-- points to its order: `value` is the key of the order in the table `orders`, which every
-- comparison reads, so that a change of the order through another pointer is seen. The price and the
-- quantity are copied when the order is pushed. The field `comparator` is chosen by the kind of the
-- queue, which is kept in its place. The RWMutex makes each method one step.
pub mod Defs
pub mod Valid
pub mod Push
pub mod Pop
