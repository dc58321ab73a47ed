-- ===== src/Queue/Examples.antt =====
-- The theorems on the queue at the sample table, and tests of the definitions.
mod Statements
mod Workers
mod Interleavings
