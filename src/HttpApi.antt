-- ===== src/HttpApi.antt =====
-- internal/httpapi: what stands between a request and the services. The handlers only decode a body, call
-- a service and encode its result.
pub mod ClientIp
pub mod Cors
pub mod Middleware
