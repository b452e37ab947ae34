-- ===== src/Redis.antt =====
-- Redis caches: apis/cache/v1beta1, pkg/clients/redis and pkg/controller/cache.
pub mod Types
pub mod Params
pub mod Patch
pub mod Drift
pub mod Controller
pub mod Lifecycle
pub mod Tests
