-- ===== src/Demo/Slice/Quiet.antt =====
-- src/bin/slice.rs, `fresh_env`: it prints nothing, and returns or panics.
use liquet.Attest.Crates.{Crates}
use liquet.Adapters.Custos.{Keys}
use liquet.Adapters.XvmCustos.{Engine}
use liquet.Demo.Program.Laws.{IsQuiet, pure-IsQuiet, after_expect, after_expect_some, after_draw}
use liquet.Demo.Slice.{Toolkit, usdc_address, initial_usdc, token_account, fresh_env}

module _ (c : Crates) (keys : Keys) (engine : Engine keys) (tools : Toolkit keys engine) where
  pub fresh_env-IsQuiet : IsQuiet (fresh_env c keys engine tools)
  unfolding fresh_env
  fresh_env-IsQuiet = after_expect "valid USDC mint" (tools.parse_pubkey usdc_address) (λ usdc.
      after_expect "USDC mint fixture" (tools.read_to_string _) (λ text.
        after_expect "valid USDC mint JSON" (tools.from_str text) (λ mint_json.
          after_expect_some "base64 mint data" (tools.as_str _) (λ encoded.
            after_expect "decode USDC mint" (tools.decode_base64 encoded) (λ mint_data.
              after_expect "install USDC mint" (engine.set_account engine.new usdc _) (λ minted.
                after_expect "SPL Token fixture" (tools.read _) (λ program.
                  after_expect "install SPL Token program"
                    (tools.add_program minted engine.spl_token_id program)
                    (λ programmed. after_draw tools.new_keypair (λ user.
                      after_draw tools.new_keypair (λ attacker.
                        after_expect "fund user"
                          (engine.airdrop programmed (tools.pubkey user) 1000000000)
                          (λ funded.
                            after_expect "fund attacker"
                              (engine.airdrop funded (tools.pubkey attacker) 1000000000)
                              (λ both_funded. after_draw tools.new_keypair (λ ata.
                                after_expect "install user token account"
                                  (engine.set_account both_funded (tools.pubkey ata) (
                                    token_account c keys engine tools engine.spl_token_id usdc
                                      (tools.pubkey user) initial_usdc))
                                  (λ installed. pure-IsQuiet (record {
                                    svm = installed;
                                    user = user;
                                    attacker = attacker;
                                    user_ata = tools.pubkey ata;
                                    token = engine.spl_token_id;
                                    usdc = usdc;
                                  })))))))))))))))
