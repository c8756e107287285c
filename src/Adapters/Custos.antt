-- ===== src/Adapters/Custos.antt =====
-- src/adapters/custos.rs. The types of `custos_engine` hold the fields that the adapters read.
mod Bytes
pub mod Sorting
pub mod Poststate
pub mod Verdict
use liquet.Common.{
  ℕ, zero, suc, ◌/◌, ◌%◌, String, Bool, true, false, List, [], ◌∷◌, ◌++◌, map, Option, none, some,
}
use liquet.Common.{length, ltb, nat_eq, ◌||◌, ◌&&◌, if◌then◌else◌}
use liquet.Seam.{Vm, caller_asserted, ReexecProof, Severity, Finding, InvariantVerdict}
use liquet.Attest.Crates.{Crates}
use liquet.Attest.Verify.{bytes_of}

pub data Level : Type 0 where
  green info yellow red : Level

-- The public key type of `solana_pubkey`, and the printing of a hash by `{:x}`.
pub record Keys : Type 1 where
  pub Pubkey : Type 0
  pub to_bytes : Pubkey → List ℕ
  pub to_string : Pubkey → String
  pub lower_hex : List ℕ → String

unfoldable pub severity_from_level : Level → Severity
severity_from_level Level.green = Severity.green
severity_from_level Level.info = Severity.info
severity_from_level Level.yellow = Severity.yellow
severity_from_level Level.red = Severity.red

-- `n.to_le_bytes()`, for `k` bytes.
abbrev pub le_bytes : ℕ → ℕ → List ℕ
le_bytes zero n = []
le_bytes (suc k) n = (n % 256) ∷ le_bytes k (n / 256)

-- The order of byte arrays.
unfoldable pub bytes_le : List ℕ → List ℕ → Bool
bytes_le [] t = true
bytes_le (a ∷ s) [] = false
bytes_le (a ∷ s) (b ∷ t) = ltb a b || (nat_eq a b && bytes_le s t)

module _ (keys : Keys) where
  open keys use {Pubkey, to_bytes, to_string, lower_hex}

  pub record CustosFinding : Type 0 where
    pub level : Level
    pub code : String
    pub account : Pubkey
    pub message : String

  pub record CustosVerdict : Type 0 where
    pub level : Level
    pub findings : List CustosFinding

  pub record AccountSnapshot : Type 0 where
    pub lamports : ℕ
    pub owner : Pubkey
    pub contents : List ℕ

  -- A map from keys to snapshots, in the order in which its iterator yields it.
  abbrev pub Snapshots : Type 0
  Snapshots = List (Pubkey × Option AccountSnapshot)

  pub record Outcome : Type 0 where
    pub pre : Snapshots
    pub post : Snapshots
    pub success : Bool

  abbrev pub finding_from_custos : CustosFinding → Finding
  finding_from_custos f = record {
    severity = severity_from_level f.level;
    code = f.code;
    account = some (to_string f.account);
    message = f.message;
  }

  unfoldable pub verdict_from_custos : CustosVerdict → InvariantVerdict
  unfolding severity_from_level
  verdict_from_custos v = record {
    level = severity_from_level v.level;
    findings = map finding_from_custos v.findings;
  }

  abbrev pub key_le : Pubkey × Option AccountSnapshot → Pubkey × Option AccountSnapshot → Bool
  key_le a b = bytes_le (to_bytes a.0) (to_bytes b.0)

  -- `sort_unstable_by_key(|(pubkey, _)| pubkey.to_bytes())`; the keys of a map are distinct.
  unfoldable pub insert_account : Pubkey × Option AccountSnapshot → Snapshots → Snapshots
  insert_account x [] = x ∷ []
  insert_account x (y ∷ ys) =
      let rest = insert_account x ys in if key_le x y then x ∷ y ∷ ys else y ∷ rest

  unfoldable pub sort_accounts : Snapshots → Snapshots
  unfolding insert_account
  sort_accounts [] = []
  sort_accounts (x ∷ xs) = insert_account x (sort_accounts xs)

  -- What one account feeds to the hash.
  abbrev pub account_bytes : Pubkey × Option AccountSnapshot → List ℕ
  account_bytes (pubkey, none) = to_bytes pubkey ++ (0 ∷ [])
  account_bytes (pubkey, some snapshot) =
      to_bytes pubkey
      ++ ((1 ∷ [])
          ++ (le_bytes 8 snapshot.lamports
              ++ (to_bytes snapshot.owner
                  ++ (le_bytes 8 (length snapshot.contents) ++ snapshot.contents))))

  abbrev pub accounts_bytes : Snapshots → List ℕ
  accounts_bytes [] = []
  accounts_bytes (x ∷ xs) = account_bytes x ++ accounts_bytes xs

  abbrev pub poststate_domain : List ℕ
  poststate_domain = bytes_of "liquet/custos/poststate/v1"

  module _ (c : Crates) where
    unfoldable pub poststate_digest : Snapshots → String
    poststate_digest accounts = lower_hex (c.sha256 (poststate_domain ++ accounts_bytes accounts))

    unfoldable pub proof_from_outcome : Outcome → ReexecProof
    unfolding sort_accounts poststate_digest
    proof_from_outcome outcome =
        let accounts = sort_accounts outcome.post in
        record {
          vm = Vm.svm;
          executed = outcome.success;
          poststate_digest = poststate_digest accounts;
          covered_accounts = map (λ a. to_string a.0) accounts;
          facts_source = caller_asserted;
          asset = none;
          amount = none;
          recipient = none;
          unverifiable_reason = none;
        }
