-- ===== src/Examples.antt =====
-- The theorems at concrete inputs that meet their hypotheses, and runs of the definitions.
mod Presence
mod Refusing
mod Consent
mod Pam
mod Rearm
mod Desk
mod Server
mod Handle
mod Passwordless
mod Requester
mod Stored
mod Parked
mod Pictures
mod Verdicts
mod Enrolled
