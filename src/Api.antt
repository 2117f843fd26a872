-- ===== src/Api.antt =====
-- engine/internal/api: the live stream of the six simulations, and the requests that it admits.
pub mod Frames
pub mod Replay
pub mod Params
pub mod Tuple
pub mod Jobs
