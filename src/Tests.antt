-- ===== src/Tests.antt =====
-- Runs of the model on small inputs.
mod Blocks
mod Metrics
mod Values
mod Maps
mod Caches
mod Fixtures
mod Files
mod Flush
mod Commands
mod Statements
mod Servers
mod Decimals
mod Grammars
