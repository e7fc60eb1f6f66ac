-- ===== src/Tests.antt =====
-- Concrete parameters of the model, and runs of the theorems on them.
mod Wire
mod Sessions
mod Numbers
mod Scores
mod Services
mod Upkeep
mod Sink
mod Queue
mod Stores
mod Commands
mod Worker
mod Torn
mod Delivery
