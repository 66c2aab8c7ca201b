-- ===== src/Backends/Gated.antt =====
-- GatedBackend as a backend (packages/wallet-ui/src/approval.ts): the operations that it passes on to
-- the inner backend, and its own transfer and programCall, which are arguments (Approval/Gate has them).
use widespread_logos.Prelude.{Option, none, List, Text}
use widespread_logos.Prelude.Tasks.{Task}
use widespread_logos.Platform.Json.{Value}
use widespread_logos.Backends.Seam.{WalletBackend, AccountPair}

unfoldable pub gated_backend :
    {State : Type 0}
    → WalletBackend State
    → (Text → Text → Text → Task State Value)
    → (Text → Text → List AccountPair → Option Text → Task State Value)
    → WalletBackend State
gated_backend inner gated_transfer gated_program_call = record {
  init = inner.init;
  restore = inner.restore;
  list_accounts = inner.list_accounts;
  create_account = inner.create_account;
  balance = inner.balance;
  sync = inner.sync;
  status = inner.status;
  transfer = gated_transfer;
  program_call = gated_program_call;
  faucet_drop = inner.faucet_drop;
  call_module = inner.call_module;
  helper_status = inner.helper_status;
  registry_lookup = inner.registry_lookup;
  account_read = none;
  export_blob = none;
  import_blob = none;
}
