-- ===== src/Sessions.antt =====
-- app/core/sessions.py: the sessions of the users in Redis. An id (a session, a user, a jti) is a number,
-- and a moment is a number of seconds. Redis answers every call: its failure is not modelled.
pub mod Redis
pub mod Anomaly
pub mod Lifecycle
pub mod Activity
unfoldable pub use Activity.*
pub mod Revocation
pub mod Rotation
unfoldable pub use Lifecycle.*
unfoldable pub use Redis.*
unfoldable pub use Anomaly.*
