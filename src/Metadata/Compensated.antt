-- ===== src/Metadata/Compensated.antt =====
-- internal/metadata/upload.go: the deferred compensation of `PlanUpload`.
