-- ===== src/Callback.antt =====
-- Inbound callbacks: app/callbacks.py (authentication), app/callback_api.py (the endpoint
-- `receive_callback`) and app/events.py, with `resolve_inbound_credential` of
-- app/security/credentials.py and `decrypt_secret` of app/security/crypto.py.
pub mod Auth
pub mod Evidence
pub mod Store
pub mod Expire
pub mod Create
pub mod Created
pub mod Receive
