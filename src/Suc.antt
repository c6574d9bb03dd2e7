-- ===== src/Suc.antt =====
-- The service bcpsucd: pkg/grpc/ucred, internal/suc, cmd/bcpsucd, and its client cmd/bcpctl.
pub mod Ucred
pub mod Server
pub mod Limits
