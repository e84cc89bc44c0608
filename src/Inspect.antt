-- ===== src/Inspect.antt =====
-- models/InspectComponents.go and models/InspectUserDegree.go: who trades with whom.
pub mod Graph
pub mod Components
pub mod Search
pub mod Passes
pub mod Report
pub mod Degree
