-- ===== src/Adapters/Custos/Verdict.antt =====
-- src/adapters/custos.rs, `verdict_from_custos`: a level that is the worst of its findings stays so.
use liquet.Common.{ℕ, ◌≤◌, ◌≡◌, refl, ap, ◌⊎◌, inl, inr, List, [], ◌∷◌, All, map}
use liquet.Seam.{rank}
use liquet.Seam.Order.{IsBoundedBy, Reaches, IsWorst}
use liquet.Adapters.Custos.{
  Level, Keys, severity_from_level, CustosFinding, CustosVerdict, finding_from_custos,
  verdict_from_custos,
}

-- The order in which `custos_engine::Level` lists its levels.
abbrev level_rank : Level → ℕ
level_rank Level.green = 0
level_rank Level.info = 1
level_rank Level.yellow = 2
level_rank Level.red = 3

rank-severity_from_level : (l : Level) → rank (severity_from_level l) ≡ level_rank l
unfolding severity_from_level
rank-severity_from_level Level.green = refl
rank-severity_from_level Level.info = refl
rank-severity_from_level Level.yellow = refl
rank-severity_from_level Level.red = refl

module _ (keys : Keys) where
  -- Some finding has the level `l`, or it is green and there is none.
  abbrev LevelReaches : Level → List (CustosFinding keys) → Type 0
  LevelReaches l [] = l ≡ Level.green
  LevelReaches l (f ∷ fs) = (f.level ≡ l) ⊎ LevelReaches l fs

  -- The level of a Custos verdict is the worst of its findings.
  pub record IsWorstLevel (v : CustosVerdict keys) : Type 0 where
    pub bounded : All (λ f. level_rank f.level ≤ level_rank v.level) v.findings
    pub reached : LevelReaches v.level v.findings

  bounded-map :
      (l : Level) (fs : List (CustosFinding keys))
      → All (λ f. level_rank f.level ≤ level_rank l) fs
      → IsBoundedBy (severity_from_level l) (map (finding_from_custos keys) fs)
  bounded-map l [] h = tt
  bounded-map l (f ∷ fs) h = (
    rw (rank-severity_from_level f.level, rank-severity_from_level l) (h.0),
    bounded-map l fs (h.1),
  )

  reached-map :
      (l : Level) (fs : List (CustosFinding keys))
      → LevelReaches l fs
      → Reaches (severity_from_level l) (map (finding_from_custos keys) fs)
  unfolding severity_from_level
  reached-map l [] h = ap severity_from_level h
  reached-map l (f ∷ fs) (inl h) = inl (ap severity_from_level h)
  reached-map l (f ∷ fs) (inr h) = inr (reached-map l fs h)

  -- When Custos reports the worst of its findings as the level, the verdict at the seam has the worst
  -- severity of its own findings as its level, as the seam documents.
  pub verdict_from_custos-IsWorst :
      (v : CustosVerdict keys) → IsWorstLevel v → IsWorst (verdict_from_custos keys v)
  unfolding verdict_from_custos
  verdict_from_custos-IsWorst v w = record {
    bounded = bounded-map v.level v.findings w.bounded;
    reached = reached-map v.level v.findings w.reached;
  }
