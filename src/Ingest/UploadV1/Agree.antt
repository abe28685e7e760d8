-- ===== src/Ingest/UploadV1/Agree.antt =====
-- The native upload, backend/internal/handler/calls/upload_v1.go, and the legacy one, upload.go,
-- compared.
