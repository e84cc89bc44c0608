-- ===== src/Engine.antt =====
-- matchingengine/MatchingEngine.go: the order books of all stocks.
pub mod Defs
pub mod Loading
pub mod Start
