-- ===== src/Tests/Suite.antt =====
-- The unit tests of the agent core, run on the model: each is a Boolean, as the source's assertions are.
pub mod Driver
pub mod Replies
pub mod Fold
