-- ===== src/Http.antt =====
-- project/http: messages of HTTP/1.0 and HTTP/1.1, and the handler that answers a request.
pub mod Headers
pub mod Request
pub mod Response
pub mod FileTypes
pub mod Date
pub mod Handler
