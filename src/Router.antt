-- ===== src/Router.antt =====
-- internal/router: the planners, which tell the scheduler what a swap evicts.
pub mod Planners
pub mod Groups
pub mod Matrix
mod Examples
