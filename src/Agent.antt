-- ===== src/Agent.antt =====
-- src/unhalted/agent.py: the control loop.
--
-- A function of the source that raises returns `none`. The case that a handler returns is the row as
-- it now stands, or the case that it was given where there is no row.
pub mod Entry
pub mod Frame
pub mod Retry
pub mod Escalation
pub mod Stop
pub mod Failure
pub mod Reply
pub mod Review
pub mod Opening
pub mod Idle
pub mod Quiet
pub mod Reach
pub mod Person
pub mod Standing
pub mod Spent
pub mod Placed
pub mod Lawful
pub mod LawfulReply
pub mod LawfulFailure
pub mod LawfulCase
