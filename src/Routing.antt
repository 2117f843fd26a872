-- ===== src/Routing.antt =====
-- engine/internal/routing: the shortest-path core and the strategies over it.
pub mod Dijkstra
pub mod Requests
pub mod SinglePass
pub mod Naive
pub mod AStar
pub mod Reactive
pub mod Convergence
pub mod FanOut
pub mod Averaging
pub mod Batches
pub mod Incremental
pub mod Multipath
pub mod Yen
pub mod Split
