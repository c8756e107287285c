-- ===== src/Demo/Slice/Laws.antt =====
-- src/bin/slice.rs: what is printed, and how the program ends.
use liquet.Common.{suc, ◌≡◌, refl, ap, ◌∙◌, ◌⊎◌, inl, inr, String, ◌<>◌}
use liquet.Common.{List, [], ◌∷◌, ◌++◌, ok, err, Result-cases}
use mathlib.Core.List.{append_assoc}
use liquet.Seam.{SettlementIntent}
use liquet.Decide.{LiquetDecision}
use liquet.Attest.Crates.{Crates}
use liquet.Adapters.Custos.{Keys, Outcome}
use liquet.Adapters.XvmCustos.{Engine}
use liquet.Demo.Program.{panic_report, unexpected, reported, World, returned, panicked, ◌>>=◌, ◌>>◌}
use liquet.Demo.Program.Laws.{Same, Reported, after-cases}
use liquet.Demo.Slice.Quiet.{fresh_env-IsQuiet}
use liquet.Demo.Slice.{
  Toolkit, Env, token_account, decide_outcome, benign_name, drainer_name, benign_outcome,
  drainer_outcome, intent_of, fresh_env, print_decision, run_benign, run_drainer, main,
}

module _ (c : Crates) (keys : Keys) (engine : Engine keys) (tools : Toolkit keys engine) where
  -- What the transfer runs on: an environment, and the machine after the merchant's token account is
  -- installed.
  pub record Benign (w : World) : Type 0 where
    pub env : Env c keys engine tools
    pub next : World
    pub fresh : fresh_env c keys engine tools w ≡ (returned env, next)
    pub svm : engine.LiteSvm
    pub installed :
        engine.set_account env.svm (tools.pubkey (tools.new_keypair next.drawn)) (
          token_account c keys engine tools env.token env.usdc
            (tools.pubkey (tools.new_keypair (suc next.drawn)))
            0)
        ≡ ok svm

  -- Why there is nothing for the transfer to run on: the merchant's token account is not installed.
  pub record Uninstalled (w : World) (why : String) : Type 0 where
    pub env : Env c keys engine tools
    pub next : World
    pub fresh : fresh_env c keys engine tools w ≡ (returned env, next)
    pub error : String
    pub refused :
        engine.set_account env.svm (tools.pubkey (tools.new_keypair next.drawn)) (
          token_account c keys engine tools env.token env.usdc
            (tools.pubkey (tools.new_keypair (suc next.drawn)))
            0)
        ≡ err error
    pub message : why ≡ unexpected "install merchant token account" error

  -- What the approval runs on.
  pub record Drainer (w : World) : Type 0 where
    pub env : Env c keys engine tools
    pub next : World
    pub fresh : fresh_env c keys engine tools w ≡ (returned env, next)

  abbrev pub outcome_of_benign : {w : World} → Benign w → Outcome keys
  outcome_of_benign b =
      benign_outcome c keys engine tools b.env b.svm (tools.pubkey (tools.new_keypair b.next.drawn))

  abbrev pub benign_intent : {w : World} → Benign w → SettlementIntent
  benign_intent b =
      let merchant_ata = tools.pubkey (tools.new_keypair b.next.drawn) in
      intent_of c keys engine tools (tools.pubkey (tools.new_keypair (suc b.next.drawn)))
        (b.env.user_ata ∷ merchant_ata ∷ [])

  abbrev pub drainer_intent : {w : World} → Drainer w → SettlementIntent
  drainer_intent d =
      intent_of c keys engine tools (tools.pubkey (tools.new_keypair d.next.drawn))
        (d.env.user_ata ∷ [])

  abbrev pub benign_decision : {w : World} → Benign w → LiquetDecision
  benign_decision b = decide_outcome c keys engine tools (outcome_of_benign b) (benign_intent b)

  abbrev pub drainer_decision : {w : World} → Drainer w → LiquetDecision
  drainer_decision d =
      decide_outcome c keys engine tools (drainer_outcome c keys engine tools d.env)
        (drainer_intent d)

  module _ (decision_json : LiquetDecision → String) where
    abbrev pub line : String → LiquetDecision → String
    line name d = name <> (" " <> decision_json d)

    -- The end of a run that printed the lines.
    abbrev pub Printed : List String → World → World → Type 0
    Printed lines w w' = (w'.stdout ≡ w.stdout ++ lines) × (w'.stderr ≡ w.stderr)

    -- The end of a run that printed the lines, and then panicked.
    abbrev pub PrintedThenReported : List String → World → String → World → Type 0
    PrintedThenReported lines w why w' =
        (w'.stdout ≡ w.stdout ++ lines) × (w'.stderr ≡ w.stderr ++ panic_report why ∷ [])

    -- Where the first half leaves the program, and where the second does.
    abbrev pub after_benign : {w : World} → Benign w → World
    after_benign b = record b.next {
      drawn = suc (suc b.next.drawn);
      stdout = b.next.stdout ++ line benign_name (benign_decision b) ∷ [];
    }

    abbrev pub after_drainer : {w : World} → Drainer w → World
    after_drainer d = record d.next {
      drawn = suc d.next.drawn;
      stdout = d.next.stdout ++ line drainer_name (drainer_decision d) ∷ [];
    }

    run_benign-cases :
        (w : World) (env : Env c keys engine tools) (next : World)
        → fresh_env c keys engine tools w ≡ (returned env, next)
        → let ran = run_benign c keys engine tools decision_json env next in
          ((b : Benign w) × (ran ≡ (returned tt, after_benign b)) × (b.next ≡ next))
          ⊎ ((why : String) × (w' : World) × Uninstalled w why
              × (ran ≡ (panicked why, w'))
              × Reported next why w')
    unfolding run_benign print_decision
    run_benign-cases w env next fresh =
        elim (Result-cases (
          engine.set_account env.svm (tools.pubkey (tools.new_keypair next.drawn)) (
            token_account c keys engine tools env.token env.usdc
              (tools.pubkey (tools.new_keypair (suc next.drawn))) 0))) [
                | inr (e, bad) ↦
                    let why = unexpected "install merchant token account" e in
                    inr (
                      why,
                      reported why (record next { drawn = suc (suc next.drawn) }),
                      record {
                        env = env;
                        next = next;
                        fresh = fresh;
                        error = e;
                        refused = bad;
                        message = refl;
                      },
                      rw bad refl,
                      (refl, refl),
                    )
                | inl (svm, good) ↦
                    let b : Benign w = record {
                      env = env;
                      next = next;
                      fresh = fresh;
                      svm = svm;
                      installed = good;
                    } in
                    inl (b, rw good refl, refl)
              ]

    run_drainer_lem :
        (w : World) (d : Drainer w)
        → run_drainer c keys engine tools decision_json d.env d.next
          ≡ (returned tt, after_drainer d)
    unfolding run_drainer print_decision
    run_drainer_lem w d = refl

    two_lines :
        (l m : String) (o o₁ o₂ : List String)
        → o₂ ≡ o₁ ++ l ∷ []
        → o₁ ≡ o
        → o₂ ++ m ∷ [] ≡ o ++ l ∷ m ∷ []
    two_lines l m o _ _ a b =
        ap (λ x. x ++ m ∷ []) (a ∙ ap (λ x. x ++ l ∷ []) b) ∙ append_assoc o (l ∷ []) (m ∷ [])

    -- The second half, after the first has printed its line.
    abbrev Rest : {w : World} → Benign w → Type 0
    Rest {w} b =
        let ran =
          (fresh_env c keys engine tools >>= run_drainer c keys engine tools decision_json)
            (after_benign b) in
        ((d : Drainer (after_benign b)) × (ran ≡ (returned tt, after_drainer d))
          × Printed
              (line benign_name (benign_decision b) ∷ line drainer_name (drainer_decision d) ∷ []) w
              (after_drainer d))
        ⊎ ((why : String) × (w' : World) × (ran ≡ (panicked why, w'))
            × (fresh_env c keys engine tools (after_benign b) ≡ (panicked why, w'))
            × PrintedThenReported (line benign_name (benign_decision b) ∷ []) w why w')

    Rest-cases : (w : World) (b : Benign w) → Same w b.next → Rest b
    Rest-cases w b (out, error) =
        elim (after-cases (fresh_env c keys engine tools)
          (run_drainer c keys engine tools decision_json) (after_benign b)
          (fresh_env-IsQuiet c keys engine tools)) [
            | inr (why, w', (out₂, error₂), stopped, ran) ↦ inr (
              why,
              w',
              ran,
              stopped,
              (
                out₂ ∙ ap (λ o. o ++ line benign_name (benign_decision b) ∷ []) out,
                error₂ ∙ ap (λ o. o ++ panic_report why ∷ []) error,
              ),
            )
            | inl (env, next, (out₂, error₂), fresh, ran) ↦
                let d : Drainer (after_benign b) = record {
                  env = env;
                  next = next;
                  fresh = fresh;
                } in
                inl (
                  d,
                  ran ∙ run_drainer_lem (after_benign b) d,
                  (two_lines _ _ w.stdout _ _ out₂ out, error₂ ∙ error),
                )
          ]

    -- The demo either prints two lines and returns: the decision of the gate on the transfer, in the
    -- environment that `fresh_env` yields at the start, and then that on the approval, in the one that
    -- `fresh_env` yields where the first half has ended; the error output is then unchanged. Or it
    -- panics, and the report of that is added to the error output: before any line is printed, where
    -- `fresh_env` panics or the merchant's token account is refused; or after the first line, where
    -- the second `fresh_env` panics. It never exits otherwise.
    pub main_prints :
        (w : World)
        → let ran = main c keys engine tools decision_json w in
          ((b : Benign w) × (d : Drainer (after_benign b)) × (ran ≡ (returned tt, after_drainer d))
            × Printed
                (line benign_name (benign_decision b) ∷ line drainer_name (drainer_decision d) ∷ [])
                w
                (after_drainer d))
          ⊎ ((why : String) × (w' : World) × (ran ≡ (panicked why, w'))
              × ((Reported w why w'
                    × ((fresh_env c keys engine tools w ≡ (panicked why, w')) ⊎ Uninstalled w why))
                  ⊎ ((b : Benign w) × (fresh_env c keys engine tools (after_benign b)
                        ≡ (panicked why, w'))
                      × PrintedThenReported (line benign_name (benign_decision b) ∷ []) w why w')))
    unfolding main
    main_prints w =
        elim (after-cases (fresh_env c keys engine tools)
          (λ benign.
            run_benign c keys engine tools decision_json benign
            >> (fresh_env c keys engine tools >>= run_drainer c keys engine tools decision_json))
          w (fresh_env-IsQuiet c keys engine tools)) [
            | inr (why, w', report, stopped, ran) ↦ inr (why, w', ran, inl (report, inl stopped))
            | inl (env, next, (out, error), fresh, ran) ↦ elim (run_benign-cases w env next fresh) [
              | inr (why, w', refused, bad, (out₁, error₁)) ↦ inr (
                why,
                w',
                ran ∙ rw bad refl,
                inl (
                  (out₁ ∙ out, error₁ ∙ ap (λ o. o ++ panic_report why ∷ []) error),
                  inr refused,
                ),
              )
              | inl (b, good, here) ↦
                  elim (Rest-cases w b
                    (ap (λ x. x.stdout) here ∙ out, ap (λ x. x.stderr) here ∙ error)) [
                      | inr (why, w', bad, stopped, printed) ↦
                          inr (why, w', ran ∙ rw good bad, inr (b, stopped, printed))
                      | inl (d, end, printed) ↦ inl (b, d, ran ∙ rw good end, printed)
                    ]
            ]
          ]
