-- ===== src/Api.antt =====
-- app/api: what stands in front of the requests.
pub mod TokenBucket
pub mod Protection
