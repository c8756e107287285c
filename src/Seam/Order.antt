-- ===== src/Seam/Order.antt =====
-- src/seam.rs: the order of severities, and what the documentation of `level` promises.
use liquet.Common.{◌≤◌, ◌≡◌, refl, ◌↔◌, ◌⊎◌, true}
use liquet.Common.{List, [], ◌∷◌, All}
use liquet.Seam.{Vm, svm, evm, vm_eq, Severity, green, rank, Finding, InvariantVerdict}

pub vm_eq_iff : (a b : Vm) → (vm_eq a b ≡ true) ↔ (a ≡ b)
unfolding vm_eq
vm_eq_iff svm svm = (λ _. refl, λ _. refl)
vm_eq_iff evm evm = (λ _. refl, λ _. refl)
vm_eq_iff svm evm = (λ h. cc, λ h. cc)
vm_eq_iff evm svm = (λ h. cc, λ h. cc)

-- No finding is worse than `s`.
abbrev pub IsBoundedBy : Severity → List Finding → Type 0
IsBoundedBy s fs = All (λ f. rank f.severity ≤ rank s) fs

-- Some finding is as bad as `s`.
abbrev pub Reaches : Severity → List Finding → Type 0
Reaches s [] = s ≡ green
Reaches s (f ∷ fs) = (f.severity ≡ s) ⊎ Reaches s fs

-- "Worst severity across `findings` (Green if none)".
pub record IsWorst (v : InvariantVerdict) : Type 0 where
  pub bounded : IsBoundedBy v.level v.findings
  pub reached : Reaches v.level v.findings
