-- ===== src/Http.antt =====
-- The `http` namespace: src/http and inc/http.
pub mod Status
pub mod Chunked
pub mod Headers
pub mod Request
pub mod RequestParser
pub mod Upload
pub mod Router
pub mod MimeTypes
pub mod Response
pub mod Resolve
pub mod Files
pub mod TempFile
pub mod Errors
pub mod Handlers
pub mod UploadHandler
pub mod Listing
pub mod Dispatch
mod Tests
