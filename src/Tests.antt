-- ===== src/Tests.antt =====
-- Small graphs and requests on which the theorems are applied and the definitions run.
mod Numbers
mod Roads
mod Search
mod Batch
mod Rounds
mod Paths
mod Draws
mod Messages
mod Queue
mod Streams
mod Posts
mod Keys
mod Islands
