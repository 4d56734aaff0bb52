-- ===== src/Security.antt =====
-- security/: the permissions of tools and the policy that decides on their use.
pub mod Policy
