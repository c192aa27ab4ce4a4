-- ===== src/Auth.antt =====
-- Who may call: lib/auth/file-provider.js, lib/auth/safe-equal.js and lib/user-auth.js.
pub mod FileProvider
pub mod UserAuth
pub mod Permits
pub mod Identity
