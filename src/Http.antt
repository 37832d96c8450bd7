-- ===== src/Http.antt =====
-- What a request passes on its way to a use case: internal/shared/pagination and the middleware
-- cors.go, auth.go and requestid.go of internal/shared/middleware.
pub mod Pagination
pub mod Cors
pub mod Authentication
pub mod RequestId
pub mod RateLimit
pub mod Request
pub mod RateKeys
pub mod Reply
pub mod Handlers
pub mod Routes
