-- ===== src/Tests.antt =====
-- Runs of the model at concrete inputs, and the theorems at inputs that meet their hypotheses.
mod Maps
mod Books
mod Levels
mod Trading
mod Exchange
mod Feed
mod Ring
mod Synced
mod Latency
mod Readers
mod Prices
mod Args
mod Pipeline
