-- ===== src/Db/Caching.antt =====
-- src/deska/db/CachingJsonApi.{h,cpp}: the API that remembers the scheme and delays modifications,
-- over the plain API `JsonApiParser`, which enters as the interface of `Api`.
mod Api
mod State
mod Commands
mod Metadata
mod Direct
mod Refines
mod Refinement
mod Chain
mod Homogeneous
mod Scheme
mod Tests
