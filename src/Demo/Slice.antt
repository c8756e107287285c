-- ===== src/Demo/Slice.antt =====
-- src/bin/slice.rs. The crates that it calls, the files that it reads, and the JSON of a decision are
-- parameters; a call that changes the virtual machine returns it changed.
pub mod Quiet
pub mod Laws
pub mod Decisions
mod Tests
use liquet.Common.{ℕ, String, ◌<>◌, false, List, [], ◌∷◌, map, Option, some, Result}
use liquet.Seam.{Vm, SettlementIntent}
use liquet.Decide.{LiquetDecision, default_policy, decide}
use liquet.Attest.Crates.{Crates}
use liquet.Adapters.Custos.{Keys, Outcome, verdict_from_custos, proof_from_outcome}
use liquet.Adapters.XvmCustos.{Engine, Account}
use liquet.Demo.Program.{Program, pure, ◌>>=◌, ◌>>◌, println, draw, expect, expect_some}

abbrev pub usdc_address : String
usdc_address = "EPjFWdd5AufqSSqeM2qN1xzybapC8G4wEGGkZwyTDt1v"

abbrev pub initial_usdc : ℕ
initial_usdc = 1000000000

abbrev pub payment_usdc : ℕ
payment_usdc = 5000000

-- `u64::MAX`
abbrev pub u64_max : ℕ
u64_max = 18446744073709551615

-- The calls of `solana_keypair`, `solana_transaction`, `custos_engine::spl`, `serde_json` and `base64`,
-- and the files at their paths. An error is the text that `Debug` prints of it. `get` and `at` are the two `Index` operators of a JSON value.
pub record Toolkit (keys : Keys) (engine : Engine keys) : Type 1 where
  pub Keypair : Type 0
  pub new_keypair : ℕ → Keypair
  pub pubkey : Keypair → keys.Pubkey
  pub parse_pubkey : String → Result keys.Pubkey String
  pub token_account_bytes : (mint owner : keys.Pubkey) (amount : ℕ) → List ℕ
  pub Instruction : Type 0
  pub transfer : (token source destination owner : keys.Pubkey) (amount : ℕ) → Instruction
  pub approve : (token source delegate owner : keys.Pubkey) (amount : ℕ) → Instruction
  pub Hash : Type 0
  pub latest_blockhash : engine.LiteSvm → Hash
  pub add_program : engine.LiteSvm → keys.Pubkey → List ℕ → Result engine.LiteSvm String
  pub new_signed_with_payer :
      List Instruction → Option keys.Pubkey → List Keypair → Hash → engine.Transaction
  pub manifest_dir : String
  pub read_to_string : String → Result String String
  pub read : String → Result (List ℕ) String
  pub Json : Type 0
  pub from_str : String → Result Json String
  pub get : Json → String → Json
  pub at : Json → ℕ → Json
  pub as_str : Json → Option String
  pub decode_base64 : String → Result (List ℕ) String

abbrev pub benign_name : String
benign_name = "benign-stablecoin-transfer"

abbrev pub drainer_name : String
drainer_name = "hidden-approve-drainer"

module _ (c : Crates) (keys : Keys) (engine : Engine keys) (tools : Toolkit keys engine) where
  open keys use {Pubkey, to_string}
  open engine use {
    LiteSvm, new, set_account, airdrop, capture, spl_token_id, system_id, evaluate, default_bank,
  }
  open tools use {
    Keypair, new_keypair, pubkey, parse_pubkey, token_account_bytes, transfer, approve,
    latest_blockhash, add_program, new_signed_with_payer, manifest_dir, read_to_string, read,
    from_str, get, at, as_str, decode_base64,
  }

  pub record Env : Type 0 where
    pub svm : LiteSvm
    pub user : Keypair
    pub attacker : Keypair
    pub user_ata : Pubkey
    pub token : Pubkey
    pub usdc : Pubkey

  -- `PathBuf::join`, with a relative path.
  abbrev pub path_join : String → String → String
  path_join base path = base <> ("/" <> path)

  abbrev pub artifacts : String
  artifacts = path_join manifest_dir "../custos/gate/artifacts"

  unfoldable pub token_account : Pubkey → Pubkey → Pubkey → ℕ → Account keys
  token_account account mint owner amount = record {
    lamports = 2039280;
    contents = token_account_bytes mint owner amount;
    owner = account;
    executable = false;
    rent_epoch = u64_max;
  }

  unfoldable pub fresh_env : Program Env
  unfolding token_account
  fresh_env = do
    let token = spl_token_id
    usdc ← expect "valid USDC mint" (parse_pubkey usdc_address)
    text ← expect "USDC mint fixture" (read_to_string (path_join artifacts "usdc_mint.json"))
    mint_json ← expect "valid USDC mint JSON" (from_str text)
    encoded ← expect_some "base64 mint data" (as_str (at (get (get mint_json "account") "data") 0))
    mint_data ← expect "decode USDC mint" (decode_base64 encoded)
    svm ← expect "install USDC mint" (
        set_account new usdc (record {
          lamports = 1000000;
          contents = mint_data;
          owner = token;
          executable = false;
          rent_epoch = u64_max;
        }))
    program ← expect "SPL Token fixture" (read (path_join artifacts "spl_token.so"))
    svm ← expect "install SPL Token program" (add_program svm token program)
    user ← draw new_keypair
    attacker ← draw new_keypair
    svm ← expect "fund user" (airdrop svm (pubkey user) 1000000000)
    svm ← expect "fund attacker" (airdrop svm (pubkey attacker) 1000000000)
    ata ← draw new_keypair
    let user_ata = pubkey ata
    svm ←
        expect "install user token account"
          (set_account svm user_ata (token_account token usdc (pubkey user) initial_usdc))
    pure (record {
      svm = svm;
      user = user;
      attacker = attacker;
      user_ata = user_ata;
      token = token;
      usdc = usdc;
    })

  -- The decision of an outcome.
  abbrev pub decide_outcome : Outcome keys → SettlementIntent → LiquetDecision
  decide_outcome outcome intent =
      let verdict = evaluate outcome default_bank in
      let proof = proof_from_outcome keys c outcome in
      decide intent proof (verdict_from_custos keys verdict) default_policy

  abbrev pub intent_of : Pubkey → List Pubkey → SettlementIntent
  intent_of merchant accounts = record {
    vm = Vm.svm;
    asset = "USDC";
    amount = payment_usdc;
    recipient = to_string merchant;
    required_accounts = map to_string accounts;
  }

  -- The transfer to the merchant, on a machine where the merchant has a token account.
  abbrev pub benign_outcome : Env → LiteSvm → Pubkey → Outcome keys
  benign_outcome benign svm merchant_ata =
      let payer = pubkey benign.user in
      let tx =
        new_signed_with_payer
          (transfer benign.token benign.user_ata merchant_ata payer payment_usdc ∷ []) (some payer)
          (benign.user ∷ []) (latest_blockhash svm) in
      (capture svm tx payer (benign.user_ata ∷ merchant_ata ∷ payer ∷ []) benign.token system_id).0

  -- The unlimited approval that is submitted in place of it.
  abbrev pub drainer_outcome : Env → Outcome keys
  drainer_outcome drainer =
      let payer = pubkey drainer.user in
      let tx =
        new_signed_with_payer
          (approve drainer.token drainer.user_ata (pubkey drainer.attacker) payer u64_max ∷ [])
          (some payer) (drainer.user ∷ []) (latest_blockhash drainer.svm) in
      (capture drainer.svm tx payer (drainer.user_ata ∷ payer ∷ []) drainer.token system_id).0

  module _ (decision_json : LiquetDecision → String) where
    unfoldable pub print_decision : String → Outcome keys → SettlementIntent → Program (Unit {0})
    print_decision name outcome intent =
        println (name <> (" " <> decision_json (decide_outcome outcome intent)))

    -- The first half of `main`, in its environment.
    unfoldable pub run_benign : Env → Program (Unit {0})
    unfolding print_decision token_account
    run_benign benign = do
      ata ← draw new_keypair
      let merchant_ata = pubkey ata
      owner ← draw new_keypair
      let merchant = pubkey owner
      svm ←
          expect "install merchant token account" (
            set_account benign.svm merchant_ata (token_account benign.token benign.usdc merchant 0))
      print_decision benign_name (benign_outcome benign svm merchant_ata)
          (intent_of merchant (benign.user_ata ∷ merchant_ata ∷ []))

    -- The second half.
    unfoldable pub run_drainer : Env → Program (Unit {0})
    unfolding print_decision
    run_drainer drainer = do
      owner ← draw new_keypair
      let intended_merchant = pubkey owner
      print_decision drainer_name (drainer_outcome drainer)
          (intent_of intended_merchant (drainer.user_ata ∷ []))

    unfoldable pub main : Program (Unit {0})
    unfolding run_benign run_drainer fresh_env
    main = do benign ← fresh_env; run_benign benign; drainer ← fresh_env; run_drainer drainer
