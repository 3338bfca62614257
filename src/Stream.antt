-- ===== src/Stream.antt =====
-- apps/frontend/src/features/batches/hooks/useBatchStream.ts: the client of a batch's event stream.
pub mod Blocks
pub mod Chunks
pub mod Consume
pub mod Connect
pub mod Reassembly
pub mod Closing
pub mod Ownership
pub mod Printed
pub mod Completion
pub mod Failures
