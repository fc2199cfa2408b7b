-- ===== src/Controller/ExampleBridge.antt =====
-- A bridge for the examples: a host with a transparent hash, three keys of which two must sign, and
-- a wrapped token, before and after a wrap.
use de_fi_lending_stellar_pa.Prelude.{ℕ, ◌==◌, true, none, some, List, [], ◌∷◌, nat_equality}
use de_fi_lending_stellar_pa.Int.{pos}
use de_fi_lending_stellar_pa.Soroban.{Env}
use de_fi_lending_stellar_pa.Wrapped as Wrapped
use de_fi_lending_stellar_pa.Wrapped.{Token, mint_event, burn_event}
use de_fi_lending_stellar_pa.Controller.{BridgeSet, Controller, deployed as new_controller}
use de_fi_lending_stellar_pa.Controller.Payload.{Host, build_canonical_payload}
use de_fi_lending_stellar_pa.Controller.Attest.{Attestation}
use de_fi_lending_stellar_pa.Controller.Deployment.{Deployment, wrap_event}

-- A signature is the key that it is checked with.
abbrev pub host : Host
host = record {
  sha256 = λ message. message;
  ed25519_verify = λ key message sig. key == sig;
  to_xdr = λ a. a ∷ [];
}

abbrev pub env : Env
env = record {
  signers = λ a. true;
  invoker = none;
  current = 7;
  sequence = 1000;
  timestamp = 5000;
  token_accepts = λ before t. true;
}

abbrev pub keys : List ℕ
keys = 101 ∷ 102 ∷ 103 ∷ []

abbrev pub bridge : BridgeSet
bridge = record { keys = keys; threshold = 2 }

abbrev pub open_controller : Controller
open_controller = record new_controller {
  admin_set = some (record { admins = 1 ∷ []; threshold = 1 });
  bridge = some bridge;
  wrapped_asset = some 31;
}

abbrev pub empty_token : Token
empty_token = record Wrapped.deployed {
  admin = some 1;
  minter = some 7;
  total_supply = some (pos 0);
}

abbrev pub start : Deployment
start = record {
  controller = open_controller;
  events = [];
  tokens = (31, empty_token) ∷ [];
  pools = [];
  vaults = [];
  oracles = [];
}

abbrev pub given : List Attestation
given = (0, 101) ∷ (2, 103) ∷ []

abbrev pub full_token : Token
full_token = record empty_token {
  balances = (5, pos 40) ∷ [];
  total_supply = some (pos 40);
  events = mint_event 5 (pos 40) ∷ [];
}

abbrev pub wrapped : Deployment
wrapped = record start {
  controller = record open_controller {
    nonces = (77, true) ∷ [];
    mint_window_count = some (pos 1);
  };
  events = wrap_event 1 9 5 (pos 40) 77 3 ∷ [];
  tokens = (31, full_token) ∷ [];
}

abbrev pub payload : List ℕ
payload = build_canonical_payload host 1 9 (pos 40) 5 77 3
