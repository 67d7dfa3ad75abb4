-- ===== src/Context.antt =====
-- eyle/runtime/context_materializer.py and token_budget.py: the newest messages, observations and
-- feedback that fit a budget of tokens.
pub mod Loops
pub mod Newest
pub mod Prepared
mod Tests
