-- ===== src/Tests.antt =====
-- Runs of the models on small inputs, and the theorems at inputs that meet their hypotheses.
mod Journal
mod Charts
mod Stock
mod Treasury
mod Trade
mod Assets
mod Vat
