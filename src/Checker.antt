-- ===== src/Checker.antt =====
-- The processes that check passwords: password-buffer.c, pam.c and shadow.c. What the kernel, PAM
-- and crypt answer comes from outside.
pub mod Memory
pub mod Pam
pub mod Shadow
