-- ===== src/Demo/Program/Laws.antt =====
-- src/bin: programs that print nothing, and what comes after them.
use liquet.Common.{
  ℕ, ◌≡◌, refl, ap, ◌∙◌, [], ◌∷◌, ◌++◌, ◌⊎◌, inl, inr, String, Result, ok, err, Option, some, none,
}
use liquet.Demo.Program.{
  panic_report, World, Ended, returned, panicked, exited, Program, pure, resume, ◌>>=◌, expect,
  expect_some, draw,
}

-- Both outputs are what they were.
abbrev pub Same : World → World → Type 0
Same w w' = (w'.stdout ≡ w.stdout) × (w'.stderr ≡ w.stderr)

pub Same-trans : (u v w : World) → Same u v → Same v w → Same u w
Same-trans u v w (a, b) (c, d) = (c ∙ a, d ∙ b)

-- The report of a panic was added to the error output, and nothing else was printed.
abbrev pub Reported : World → String → World → Type 0
Reported w why w' = (w'.stdout ≡ w.stdout) × (w'.stderr ≡ w.stderr ++ panic_report why ∷ [])

-- An end with nothing printed but the report of a panic, which is not an exit.
abbrev Quiet : {A : Type 0} → World → Ended A × World → Type 0
Quiet w (returned a, w') = Same w w'
Quiet w (panicked why, w') = Reported w why w'
Quiet w (exited code, w') = ⊥

pub record IsQuiet {A : Type 0} (m : Program A) : Type 0 where
  pub quiet : (w : World) → Quiet w (m w)

pub pure-IsQuiet : {A : Type 0} (a : A) → IsQuiet (pure a)
pure-IsQuiet a = record { quiet = λ w. (refl, refl) }

pub draw-IsQuiet : {A : Type 0} (fresh : ℕ → A) → IsQuiet (draw fresh)
draw-IsQuiet fresh = record { quiet = λ w. (refl, refl) }

expect-Quiet :
    {A : Type 0} (why : String) (r : Result A String) (w : World) → Quiet w (expect why r w)
expect-Quiet why (ok a) w = (refl, refl)
expect-Quiet why (err e) w = (refl, refl)

pub expect-IsQuiet : {A : Type 0} (why : String) (r : Result A String) → IsQuiet (expect why r)
expect-IsQuiet why r = record { quiet = expect-Quiet why r }

expect_some-Quiet :
    {A : Type 0} (why : String) (o : Option A) (w : World) → Quiet w (expect_some why o w)
expect_some-Quiet why (some a) w = (refl, refl)
expect_some-Quiet why none w = (refl, refl)

pub expect_some-IsQuiet : {A : Type 0} (why : String) (o : Option A) → IsQuiet (expect_some why o)
expect_some-IsQuiet why o = record { quiet = expect_some-Quiet why o }

module _ {A : Type 0} where
  Quiet-of_Same : (u v : World) (r : Ended A × World) → Same u v → Quiet v r → Quiet u r
  Quiet-of_Same u v (returned a, w) s q = Same-trans u v w s q
  Quiet-of_Same u v (panicked why, w) s q =
      (q.0 ∙ s.0, q.1 ∙ ap (λ o. o ++ panic_report why ∷ []) s.1)
  Quiet-of_Same u v (exited code, w) s q = q

module _ {A B : Type 0} where
  resume-Quiet :
      (w : World) (r : Ended A × World) (rest : A → Program B)
      → Quiet w r
      → ((a : A) → IsQuiet (rest a))
      → Quiet w (resume r rest)
  resume-Quiet w (returned a, w') rest q quiet =
      Quiet-of_Same w w' (rest a w') q ((quiet a).quiet w')
  resume-Quiet w (panicked why, w') rest q quiet = q
  resume-Quiet w (exited code, w') rest q quiet = q

  pub bind-IsQuiet :
      (m : Program A) (rest : A → Program B)
      → IsQuiet m
      → ((a : A) → IsQuiet (rest a))
      → IsQuiet (m >>= rest)
  bind-IsQuiet m rest q quiet = record { quiet = λ w. resume-Quiet w (m w) rest (q.quiet w) quiet }

  pub after_expect :
      (why : String) (r : Result A String) {rest : A → Program B}
      → ((a : A) → IsQuiet (rest a))
      → IsQuiet (expect why r >>= rest)
  after_expect why r {rest} = bind-IsQuiet (expect why r) rest (expect-IsQuiet why r)

  pub after_expect_some :
      (why : String) (o : Option A) {rest : A → Program B}
      → ((a : A) → IsQuiet (rest a))
      → IsQuiet (expect_some why o >>= rest)
  after_expect_some why o {rest} = bind-IsQuiet (expect_some why o) rest (expect_some-IsQuiet why o)

  pub after_draw :
      (fresh : ℕ → A) {rest : A → Program B}
      → ((a : A) → IsQuiet (rest a))
      → IsQuiet (draw fresh >>= rest)
  after_draw fresh {rest} = bind-IsQuiet (draw fresh) rest (draw-IsQuiet fresh)

  resume-cases :
      (w : World) (r : Ended A × World) (rest : A → Program B)
      → Quiet w r
      → ((a : A) × (w' : World) × Same w w' × (r ≡ (returned a, w')) × (resume r rest ≡ rest a w'))
        ⊎ ((why : String) × (w' : World) × Reported w why w'
            × (r ≡ (panicked why, w'))
            × (resume r rest ≡ (panicked why, w')))
  resume-cases w (returned a, w') rest q = inl (a, w', q, refl, refl)
  resume-cases w (panicked why, w') rest q = inr (why, w', q, refl, refl)
  resume-cases w (exited code, w') rest q = elim q [ ]

  -- A program that prints nothing, then another: the first panics, or the second begins.
  pub after-cases :
      (m : Program A) (rest : A → Program B) (w : World)
      → IsQuiet m
      → ((a : A) × (w' : World) × Same w w'
          × (m w ≡ (returned a, w'))
          × ((m >>= rest) w ≡ rest a w'))
        ⊎ ((why : String) × (w' : World) × Reported w why w'
            × (m w ≡ (panicked why, w'))
            × ((m >>= rest) w ≡ (panicked why, w')))
  after-cases m rest w q = resume-cases w (m w) rest (q.quiet w)
