-- ===== src/Tests.antt =====
-- Concrete runs of the code, and the theorems at concrete inputs.
mod Board
mod Tenancy
mod Experience
mod Sessions
mod Pagination
mod Retention
mod ExperienceAgent
mod Supervisor
mod Auth
mod Search
mod Crypto
mod Interviews
mod Passwords
mod Privacy
mod Matching
mod SkillGraph
mod Queue
