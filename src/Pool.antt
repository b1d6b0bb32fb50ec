-- ===== src/Pool.antt =====
-- The pool of tunnel connections that a client keeps ready.
mod Tests
pub mod Maintainer
pub mod Balance
pub mod Periods
