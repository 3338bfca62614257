-- ===== src/Tests.antt =====
-- The theorems at concrete inputs: a witness for each theorem with a hypothesis, in the modules
-- below by the part of the program.
pub mod Samples
pub mod Platform
mod StreamTests
mod DetailsTests
mod AuthTests
mod PageTests
mod LoadTests
mod RenderTests
