-- ===== src/System/Runs.antt =====
-- How a command changes the abstract view: rules that follow a function of core.c or of the policy,
-- one command at a time.
mod Base
mod Pages
mod Machine
pub use Base.*
pub use Pages.*
pub use Machine.*
