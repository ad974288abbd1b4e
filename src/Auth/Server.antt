-- ===== src/Auth/Server.antt =====
-- src/auth/pjsip_server.rs: the hooks for PJSIP's own server authentication, which are reserved. A handle
-- holds the address of a structure of PJSIP.
use gmv_pjsip.Prelude.{ℕ}
use gmv_pjsip.Error.{auth_failed, Result, err}
use gmv_pjsip.Auth.{AuthAlgorithm}

pub record PjRxDataHandle : Type 0 where
  pub raw : ℕ

pub record PjTxDataHandle : Type 0 where
  pub raw : ℕ

abbrev pub verify_rdata : PjRxDataHandle → Result (Unit {0})
verify_rdata rdata = err (
    auth_failed
      "PJSIP rdata auth path is reserved; current adapter uses PJSIP digest shim until parser retains pjsip_rx_data")

abbrev pub challenge_tdata : PjTxDataHandle → AuthAlgorithm → Result (Unit {0})
challenge_tdata tdata algorithm = err (
    auth_failed
      "PJSIP tdata challenge path is reserved; current adapter builds textual challenge while digest verification uses PJSIP")
