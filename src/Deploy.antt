-- ===== src/Deploy.antt =====
-- frontend/src-tauri/src/deployment.rs: a snapshot is activated as a skill directory of an agent, and
-- interrupted transactions are recovered from their journals.
mod Journal
mod Names
mod Machine
mod Engine
mod Recovery
pub mod Rules
pub mod Records
pub mod Steps
pub mod Moves
pub mod Stages
pub mod Recovered
pub mod Safety
pub mod Life
pub mod Acknowledged
pub mod Apart
mod Report
unfoldable pub use Journal.*
unfoldable pub use Machine.*
unfoldable pub use Engine.*
unfoldable pub use Recovery.*
unfoldable pub use Report.*
unfoldable pub use Names.*
