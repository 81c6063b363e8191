-- ===== src/Tests.antt =====
-- Runs of the theorems on small inputs, the queue being the list of its entries.
mod Wire
mod NodeRuns
mod CommandRuns
mod ConnectionRuns
mod PoolRuns
mod FrameRuns
mod BatchRuns
mod ColumnRuns
mod QueryRuns
mod UuidRuns
mod ResponseRuns
mod HandshakeRuns
