-- ===== src/Io.antt =====
-- lib/io: the streams that a pair connection carries.
pub mod Copy
pub mod WriteOutput
pub mod CopyOutput
pub mod Identity
pub mod Forward
pub mod Session
pub mod SessionEnds
mod Examples
mod SessionExamples
