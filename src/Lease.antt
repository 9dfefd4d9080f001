-- ===== src/Lease.antt =====
-- Leases on a Redis key, and fencing tokens:
-- labs/22-redis-leases-and-distributed-locks/src/redis-lock, the files basic-lock.ts,
-- lease-renewal.ts, fencing-token.ts and support.ts.
-- Redis is an interface: the commands that the code calls, and what Redis documents of them. A
-- Lua script runs with no command between its own. Tokens are numbers, since they are only
-- compared; `randomToken` makes a new one for each acquisition.
pub mod Redis
pub mod Locks
pub mod Fencing
pub mod Exclusion
pub mod Races
mod Memory
mod Tests
