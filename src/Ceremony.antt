-- ===== src/Ceremony.antt =====
-- Ceremonies (src/ceremony): the rate limits that bound their attempts.
pub mod RateLimits
