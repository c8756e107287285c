-- ===== src/Adapters/XvmCustos.antt =====
-- src/adapters/xvm_custos.rs: the screen of the delivery leg by a replay on the same prestate. LiteSVM
-- and the functions of `custos_engine` that replay, parse and evaluate are parameters.
pub mod Laws
pub mod Replay
use liquet.Common.{
  ℕ, ◌-◌, String, ◌<>◌, Bool, true, false, not, ◌||◌, List, [], ◌∷◌, map, get_elem?,
}
use liquet.Common.{Option, none, some, Result, ok, err, ◌>>=◌, ◌>>◌, map_err, ok_or, if◌then◌else◌}
use liquet.Common.{nat_eq, bool_eq, ltb}
use liquet.Common.Decimal.{to_string}
use liquet.Seam.{InvariantVerdict}
use liquet.Adapters.Probatio.{ReconstructedLeg}
use liquet.Adapters.Custos.{
  Keys, AccountSnapshot, Snapshots, Outcome, CustosVerdict, verdict_from_custos,
}

pub record TokenAccount : Type 0 where
  pub amount : ℕ

-- `solana_account::Account`, whose literals in src/bin/slice.rs name all its fields.
pub record Account (keys : Keys) : Type 0 where
  pub lamports : ℕ
  pub contents : List ℕ
  pub owner : keys.Pubkey
  pub executable : Bool
  pub rent_epoch : ℕ

-- The calls of other crates. A call that changes the virtual machine returns it changed; the machine
-- is local to the screen, and an error, which is the text that `Debug` prints of it, drops it.
pub record Engine (keys : Keys) : Type 1 where
  pub LiteSvm : Type 0
  pub Address : Type 0
  pub Transaction : Type 0
  pub Bank : Type 0
  pub address_to_bytes : Address → List ℕ
  pub display_address : Address → String
  pub new_from_array : List ℕ → keys.Pubkey
  pub pubkey_eq : keys.Pubkey → keys.Pubkey → Bool
  pub new : LiteSvm
  pub set_account : LiteSvm → keys.Pubkey → Account keys → Result LiteSvm String
  pub airdrop : LiteSvm → keys.Pubkey → ℕ → Result LiteSvm String
  -- `sim::capture`
  pub capture :
      LiteSvm
      → Transaction
      → keys.Pubkey
      → List keys.Pubkey
      → keys.Pubkey
      → keys.Pubkey
      → Outcome keys × LiteSvm
  pub spl_token_id : keys.Pubkey
  pub system_id : keys.Pubkey
  -- `TokenAccount::parse`
  pub parse : AccountSnapshot keys → Option TokenAccount
  pub default_bank : Bank
  pub evaluate : Outcome keys → Bank → CustosVerdict keys

abbrev debug_bool : Bool → String
debug_bool true = "true"
debug_bool false = "false"

abbrev pub no_recipient : String
no_recipient = "probatio delivery leg exposed no recipient watch account"

abbrev pub replay_failed : String
replay_failed = "Custos replay transaction failed"

module _ (keys : Keys) (engine : Engine keys) where
  open engine use {
    LiteSvm, Address, Transaction, address_to_bytes, display_address, new_from_array, pubkey_eq,
    set_account, airdrop, capture, spl_token_id, system_id, parse, evaluate, default_bank,
  }

  pub record SvmReconstruction : Type 0 where
    pub leg : ReconstructedLeg
    pub transaction : Transaction
    pub prestate : List (Address × Account keys)
    pub payer : Address
    pub payer_airdrop_lamports : ℕ
    pub watch : List Address

  abbrev pub key_of : Address → keys.Pubkey
  key_of address = new_from_array (address_to_bytes address)

  -- The loop over the prestate.
  unfoldable pub seed : LiteSvm → List (Address × Account keys) → Result LiteSvm String
  seed svm [] = ok svm
  seed svm ((address, account) ∷ more) = do
    svm ←
        map_err (λ e. "seed prestate " <> (display_address address <> (": " <> e)))
          (set_account svm (key_of address) account)
    seed svm more

  -- `HashMap::get`, then `Option::as_ref`: a watched account that does not exist counts as absent.
  unfoldable pub find_snapshot : Snapshots keys → keys.Pubkey → Option (AccountSnapshot keys)
  find_snapshot [] k = none
  find_snapshot ((j, o) ∷ m) k = let rest = find_snapshot m k in if pubkey_eq j k then o else rest

  abbrev pub token_amount : Option (AccountSnapshot keys) → Option ℕ
  token_amount none = none
  token_amount (some s) = elim (parse s) [ none ↦ none | some account ↦ some account.amount ]

  -- The closure `amount`.
  abbrev pub amount : Option (AccountSnapshot keys) → String → Result ℕ String
  amount snapshot phase =
      ok_or (token_amount snapshot)
        ("Custos replay has no decodable recipient token account " <> phase)

  abbrev pub diverged : ℕ → ℕ → Bool → String
  diverged delivered expected executed =
      "replay diverged from leg: Custos delivered="
      <> (to_string delivered
          <> (", Probatio delivered="
              <> (to_string expected <> (", Probatio executed=" <> debug_bool executed))))

  -- The tokens that the leg claims, `unwrap_or(0)`.
  abbrev pub expected_of : ReconstructedLeg → ℕ
  expected_of leg = elim leg.amount [ none ↦ 0 | some n ↦ n ]

  -- From the captured outcome on.
  unfoldable pub screen : SvmReconstruction → Outcome keys → Result InvariantVerdict String
  unfolding find_snapshot
  screen recon outcome = do
    if outcome.success then ok tt else err replay_failed
    recipient ← ok_or (get_elem? (map key_of recon.watch) 1) no_recipient
    before ← amount (find_snapshot outcome.pre recipient) "before"
    after ← amount (find_snapshot outcome.post recipient) "after"
    let delivered = after - before
    let expected = expected_of recon.leg
    if not (nat_eq delivered expected) || not (bool_eq (ltb 0 delivered) recon.leg.executed)
        then err (diverged delivered expected recon.leg.executed)
        else ok tt
    ok (verdict_from_custos keys (evaluate outcome default_bank))

  unfoldable pub invariant_from_svm_leg : SvmReconstruction → Result InvariantVerdict String
  unfolding seed screen
  invariant_from_svm_leg recon = do
    svm ← seed engine.new recon.prestate
    let payer = key_of recon.payer
    svm ← map_err (λ e. "airdrop payer: " <> e) (airdrop svm payer recon.payer_airdrop_lamports)
    let outcome =
        (capture svm recon.transaction payer (map key_of recon.watch) spl_token_id system_id).0
    screen recon outcome
