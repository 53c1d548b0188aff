-- ===== src/Tor.antt =====
-- The hidden services of pkg/tor/tor_instance.go. `torgo` and the Tor process behind it are a
-- parameter: what a request answers, and which services run afterwards.
pub mod Binary
pub mod Versions
pub mod Instance
pub mod Launch
use onionmsg.Base.{ℕ, List, Bytes, Outcome, ◌>>=◌}

pub record Onion : Type 0 where
  pub service : Bytes
  pub tor_port : ℕ
  pub local_port : ℕ

pub record Controller : Type 0 where
  pub onion_from_ed25519 : Bytes → Outcome Bytes
  pub service_id_from_ed25519 : Bytes → Outcome Bytes
  pub add_onion : List Onion → Onion → Outcome (List Onion)
  pub delete_onion : List Onion → Bytes → Outcome (List Onion)

module _ (ctrl : Controller) where
  unfoldable pub register_service : Bytes → ℕ → ℕ → List Onion → Outcome (List Onion)
  register_service priv tor_port local_port onions = do
    s ← ctrl.onion_from_ed25519 priv
    ctrl.add_onion onions (record { service = s; tor_port = tor_port; local_port = local_port })

  unfoldable pub deregister_service : Bytes → List Onion → Outcome (List Onion)
  deregister_service key onions = do
    sid ← ctrl.service_id_from_ed25519 key
    ctrl.delete_onion onions sid
