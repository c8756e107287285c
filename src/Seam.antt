-- ===== src/Seam.antt =====
-- src/seam.rs: the types that every producer targets, with the comparisons that it derives.
pub mod Order
use liquet.Common.{ℕ, ◌≤◌, String, Bool, true, false, List, [], Option, ltb}

pub data Vm : Type 0 where
  svm evm : Vm

-- `==` on `Vm`, derived.
unfoldable pub vm_eq : Vm → Vm → Bool
vm_eq svm svm = true
vm_eq evm evm = true
vm_eq _ _ = false

pub data FactsSource : Type 0 where
  producer_recovered caller_asserted : FactsSource

pub record ReexecProof : Type 0 where
  pub vm : Vm
  pub executed : Bool
  pub poststate_digest : String
  pub covered_accounts : List String
  pub facts_source : FactsSource
  pub asset : Option String
  pub amount : Option ℕ
  pub recipient : Option String
  pub unverifiable_reason : Option String

pub record SettlementIntent : Type 0 where
  pub vm : Vm
  pub asset : String
  pub amount : ℕ
  pub recipient : String
  pub required_accounts : List String

pub data ReconcileVerdict : Type 0 where
  matched half_open mismatch unverifiable : ReconcileVerdict

pub record CrossVmProof : Type 0 where
  pub reconcile : ReconcileVerdict
  pub reasons : List String
  pub legs : List ReexecProof
  pub claim_hash : String
  pub settlement_id : String

pub data Severity : Type 0 where
  green info yellow red : Severity

-- The order that `Ord` derives is that of the declaration.
abbrev pub rank : Severity → ℕ
rank green = 0
rank info = 1
rank yellow = 2
rank red = 3

-- `a > b` on severities.
abbrev pub exceeds : Severity → Severity → Bool
exceeds a b = ltb (rank b) (rank a)

-- What `{:?}` prints.
abbrev pub debug_severity : Severity → String
debug_severity green = "Green"
debug_severity info = "Info"
debug_severity yellow = "Yellow"
debug_severity red = "Red"

abbrev pub debug_vm : Vm → String
debug_vm svm = "Svm"
debug_vm evm = "Evm"

pub record Finding : Type 0 where
  pub severity : Severity
  pub code : String
  pub account : Option String
  pub message : String

pub record InvariantVerdict : Type 0 where
  pub level : Severity
  pub findings : List Finding

-- `InvariantVerdict::green()`
abbrev pub green_verdict : InvariantVerdict
green_verdict = record { level = green; findings = [] }
