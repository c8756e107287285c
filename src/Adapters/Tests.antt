-- ===== src/Adapters/Tests.antt =====
-- The adapters over the sample wallet and chain, and their theorems at concrete outcomes.
use mathlib.Core.List.{Permᴰ}
use liquet.Common.{
  ◌≡◌, refl, ap, ◌∙◌, sym, ◌↔◌, ◌⊎◌, inl, inr, true, false, [], ◌∷◌, none, some, ok, err, arith,
}
use liquet.Common.Decimal.{to_string, digits_from}
use liquet.Seam.{green_verdict}
use liquet.Seam.Order.{IsWorst}
use liquet.Attest.Crates.{Collision}
use liquet.Adapters.Custos.{
  Level, CustosVerdict, Snapshots, bytes_le, verdict_from_custos, sort_accounts, insert_account,
  poststate_digest, proof_from_outcome,
}
use liquet.Adapters.Custos.Verdict.{verdict_from_custos-IsWorst}
use liquet.Adapters.Custos.Sorting.{IsMap, proof_from_outcome-perm}
use liquet.Adapters.Custos.Poststate.{proof_from_outcome-commits}
use liquet.Adapters.XvmCustos.{seed, find_snapshot, screen, invariant_from_svm_leg}
use liquet.Adapters.XvmCustos.Laws.{IsBoundTo, verdict_of}
use liquet.Adapters.XvmCustos.Replay.{Replay, outcome_of, invariant_from_svm_leg-eq-ok}
use liquet.Sample.Toy.{toy, toy-IsDocumented}
use liquet.Sample.Wallet.{wallet, wallet-IsKeys}
use liquet.Sample.Chain.{chain, holding, delivery, reconstruction}

engines : Unit {0}
unfolding bytes_le insert_account sort_accounts poststate_digest proof_from_outcome
    verdict_from_custos to_string digits_from seed find_snapshot screen invariant_from_svm_leg
engines = tt

screened_delivery : invariant_from_svm_leg wallet chain reconstruction ≡ ok green_verdict
unfolding engines
screened_delivery = refl

diverged_delivery :
    invariant_from_svm_leg wallet chain
      (record reconstruction { leg = record reconstruction.leg { amount = some 24 } })
    ≡ err
        "replay diverged from leg: Custos delivered=25, Probatio delivered=24, Probatio executed=true"
unfolding engines
diverged_delivery = refl

unwatched_delivery :
    invariant_from_svm_leg wallet chain (record reconstruction { watch = 1 ∷ [] })
    ≡ err "probatio delivery leg exposed no recipient watch account"
unfolding engines
unwatched_delivery = refl

abbrev drained : CustosVerdict wallet
drained = record {
  level = Level.red;
  findings =
      record { level = Level.yellow; code = "F1"; account = true; message = "approve" }
      ∷ record { level = Level.red; code = "F3"; account = false; message = "drain" }
      ∷ [];
}

verdict_from_custos-IsWorst_example : IsWorst (verdict_from_custos wallet drained)
verdict_from_custos-IsWorst_example =
    verdict_from_custos-IsWorst wallet drained
      (record { bounded = omega arith; reached = inr (inl refl) })

abbrev other_way : Snapshots wallet
other_way = (false, some (holding 30)) ∷ (true, none) ∷ []

delivery-IsMap : IsMap wallet wallet-IsKeys delivery.post
delivery-IsMap x y (inl h) (inl k) e = h ∙ sym k
delivery-IsMap x y (inl h) (inr (inl k)) e = cc (ap (λ z. z.0) h, ap (λ z. z.0) k)
delivery-IsMap x y (inr (inl h)) (inl k) e = cc (ap (λ z. z.0) h, ap (λ z. z.0) k)
delivery-IsMap x y (inr (inl h)) (inr (inl k)) e = h ∙ sym k
delivery-IsMap x y (inl h) (inr (inr k)) e = elim k [ ]
delivery-IsMap x y (inr (inl h)) (inr (inr k)) e = elim k [ ]
delivery-IsMap x y (inr (inr h)) _ e = elim h [ ]

proof_from_outcome-perm_example :
    proof_from_outcome wallet toy delivery
    ≡ proof_from_outcome wallet toy (record delivery { post = other_way })
proof_from_outcome-perm_example =
    proof_from_outcome-perm wallet wallet-IsKeys toy delivery (Permᴰ.swap refl refl) delivery-IsMap

proof_from_outcome-commits_example : Permᴰ delivery.post other_way ⊎ Collision toy
proof_from_outcome-commits_example =
    proof_from_outcome-commits wallet wallet-IsKeys toy toy-IsDocumented delivery
      (record delivery { post = other_way }) (omega arith) (omega arith) (unfold engines in refl)

invariant_from_svm_leg-eq-ok_example :
    (invariant_from_svm_leg wallet chain reconstruction ≡ ok green_verdict) ↔ (
      (r : Replay wallet chain reconstruction) × IsBoundTo wallet chain reconstruction
        (outcome_of wallet chain r)
      × (green_verdict ≡ verdict_of wallet chain (outcome_of wallet chain r)))
invariant_from_svm_leg-eq-ok_example =
    invariant_from_svm_leg-eq-ok wallet chain reconstruction green_verdict
