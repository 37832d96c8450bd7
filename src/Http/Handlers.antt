-- ===== src/Http/Handlers.antt =====
-- The handlers of internal/infrastructure/http/handler. Where one returns after
-- `response.Error(w, err)`, it is an error here, which `settled` turns into that reply.
pub mod Identity
pub mod Inference
pub mod Config
