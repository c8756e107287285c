-- ===== src/Sample/Bench.antt =====
-- An engine whose transactions say whether they approve, and the tools of the single-VM demo over it.
use liquet.Common.{ℕ, ◌%◌, Bool, true, false, List, [], ◌∷◌, map, some, ok, nat_eq, if◌then◌else◌}
use liquet.Adapters.Custos.{AccountSnapshot}
use liquet.Adapters.XvmCustos.{Engine}
use liquet.Demo.Slice.{Toolkit}
use liquet.Sample.Wallet.{wallet}
use liquet.Sample.Simulator.{guarded}

abbrev pub watched : Bool → AccountSnapshot wallet
watched approves = record {
  lamports = 1000;
  owner = true;
  contents = if approves then 1 ∷ [] else [];
}

abbrev pub bench : Engine wallet
bench = record guarded {
  Transaction = Bool;
  capture = λ svm approves payer watch token system. (
    record { pre = []; post = map (λ k. (k, some (watched approves))) watch; success = true },
    svm,
  );
}

abbrev approves : List Bool → Bool
approves [] = false
approves (b ∷ bs) = b

abbrev pub tools : Toolkit wallet bench
tools = record {
  Keypair = ℕ;
  new_keypair = λ n. n;
  pubkey = λ n. nat_eq (n % 2) 0;
  parse_pubkey = λ s. ok true;
  token_account_bytes = λ mint owner amount. amount ∷ [];
  Instruction = Bool;
  transfer = λ token source destination owner amount. false;
  approve = λ token source delegate owner amount. true;
  Hash = Unit {0};
  latest_blockhash = λ svm. tt;
  add_program = λ svm key code. ok svm;
  new_signed_with_payer = λ instructions payer signers hash. approves instructions;
  manifest_dir = "/liquet";
  read_to_string = λ path. ok "{}";
  read = λ path. ok [];
  Json = Unit {0};
  from_str = λ text. ok tt;
  get = λ value key. tt;
  at = λ value i. tt;
  as_str = λ value. some "AAAA";
  decode_base64 = λ text. ok (0 ∷ []);
}
