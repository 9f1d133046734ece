-- ===== src/Membership/Transitions.antt =====
-- membership/transitions: the input of a transition, and for each event type its `TransitionLogic`
-- (what is refused, what is stale, and the columns that an accepted event writes).
pub mod Active
pub mod Ending
pub mod Pending
pub mod Input
