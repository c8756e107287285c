-- ===== src/Sample/Chain.antt =====
-- An engine whose transactions are their own outcomes, and a producer that accepts every request.
use liquet.Common.{ℕ, Bool, true, false, [], ◌∷◌, Option, none, some, ok, bool_eq, nat_eq}
use liquet.Adapters.Probatio.{ProbatioVm, XvmVerdict, ReconstructedLeg, XvmReceipt}
use liquet.Common.Decimal.{to_string}
use liquet.Adapters.Probatio.Specs.{EvmPaySpec, SvmTransferSpec, Claim}
use liquet.Adapters.Custos.{Level, AccountSnapshot, Outcome, CustosVerdict}
use liquet.Adapters.XvmCustos.{Account, Engine, SvmReconstruction}
use liquet.Erc8004.Validator.Pipeline.{Producer}
use liquet.Sample.Toy.{key_bytes, parse_key}
use liquet.Sample.Wallet.{wallet}

abbrev owner_of : Option Bool → Bool
owner_of none = false
owner_of (some b) = b

abbrev pub clean : CustosVerdict wallet
clean = record { level = Level.green; findings = [] }

abbrev pub chain : Engine wallet
chain = record {
  LiteSvm = Unit {0};
  Address = ℕ;
  Transaction = Outcome wallet;
  Bank = Unit {0};
  address_to_bytes = λ n. key_bytes (nat_eq n 1);
  display_address = to_string;
  new_from_array = λ bytes. owner_of (parse_key bytes);
  pubkey_eq = bool_eq;
  new = tt;
  set_account = λ svm k account. ok tt;
  airdrop = λ svm k lamports. ok tt;
  capture = λ svm transaction payer watch token system. (transaction, svm);
  spl_token_id = true;
  system_id = true;
  parse = λ snapshot. some (record { amount = snapshot.lamports });
  default_bank = tt;
  evaluate = λ outcome bank. clean;
}

abbrev pub holding : ℕ → AccountSnapshot wallet
holding n = record { lamports = n; owner = true; contents = [] }

-- The recipient's balance rises from 5 to 30.
abbrev pub delivery : Outcome wallet
delivery = record {
  pre = (true, none) ∷ (false, some (holding 5)) ∷ [];
  post = (true, none) ∷ (false, some (holding 30)) ∷ [];
  success = true;
}

abbrev pub leg_of : ProbatioVm → ReconstructedLeg
leg_of vm = record {
  vm = vm;
  executed = true;
  reexec_digest = "digest";
  asset = some "TOKEN";
  amount = some 25;
  recipient = some "bob";
  unverifiable_reason = none;
}

abbrev funds : Account wallet
funds = record { lamports = 1000; contents = []; owner = true; executable = false; rent_epoch = 0 }

abbrev pub reconstruction : SvmReconstruction wallet chain
reconstruction = record {
  leg = leg_of ProbatioVm.svm;
  transaction = delivery;
  prestate = (0, funds) ∷ [];
  payer = 1;
  payer_airdrop_lamports = 1000;
  watch = 1 ∷ 0 ∷ [];
}

abbrev pub receipt : XvmReceipt
receipt = record {
  verdict = XvmVerdict.matched;
  reasons = [];
  claim_hash = "claim-abc";
  settlement_id = "settlement-1";
}

abbrev pay : EvmPaySpec (Unit {0})
pay = record {
  payer = "payer";
  settlement_contract = "contract";
  asset = "ETH";
  amount = 25;
  payer_start_balance_wei = 1000;
  settlement_start_balance_wei = 0;
  recovered_settlement_id = some "settlement-1";
  settlement_binding_mode = tt;
}

abbrev transfer : SvmTransferSpec ℕ (Unit {0})
transfer = record {
  source_owner_seed = [];
  recipient_owner = 0;
  mint = 2;
  amount = 25;
  decimals = 0;
  source_start_amount = 1000;
  recipient_start_amount = 0;
  recovered_settlement_id = some "settlement-1";
  memo_mode = tt;
}

abbrev deal : Claim
deal = record {
  payer = "payer";
  asset = "ETH";
  amount = 25;
  good = record { spl_mint = "2"; amount = 25; recipient = "0" };
  settlement_id = "settlement-1";
  mandate = record { atomic = true };
}

abbrev pub agreeable : Producer wallet chain
agreeable = record {
  BindingMode = Unit {0};
  slot0 = tt;
  MemoMode = Unit {0};
  settlement_only = tt;
  SvmMalice = Unit {0};
  malice_none = tt;
  approve_unlimited = λ delegate. tt;
  request_from_str =
      λ text malice. ok (record { evm = pay; svm = transfer; claim = deal; malice = malice });
  reconstruct_evm_leg = λ spec. ok (record { leg = leg_of ProbatioVm.evm });
  reconstruct_svm_leg = λ spec. ok reconstruction;
  reconstruct_svm_leg_with_malice = λ spec malice. ok reconstruction;
  reconcile = λ evm svm claim. receipt;
}
