-- ===== src/Demo/Program.antt =====
-- src/bin: a program that draws fresh values, prints, and may panic or exit. What was printed before
-- a panic stays printed, so the world comes back beside every end.
pub mod Laws
use liquet.Common.{ℕ, suc, String, ◌<>◌, List, [], ◌∷◌, ◌++◌, Option, none, some, Result, ok, err}

-- What the error output holds: a line of `eprintln!`, and the report of a panic with its message,
-- where the thread and the place that the report names are left out.
pub data Diagnostic : Type 0 where
  warning panic_report : String → Diagnostic

-- How many fresh values were drawn, the lines of the output, and the error output, the oldest first.
pub record World : Type 0 where
  pub drawn : ℕ
  pub stdout : List String
  pub stderr : List Diagnostic

pub data Ended (A : Type 0) : Type 0 where
  returned : A → Ended A
  panicked : String → Ended A
  exited : ℕ → Ended A

abbrev pub Program : Type 0 → Type 0
Program A = World → Ended A × World

abbrev pub pure : {A : Type 0} → A → Program A
pure a w = (returned a, w)

module _ {A B : Type 0} where
  abbrev pub resume : Ended A × World → (A → Program B) → Ended B × World
  resume (returned a, w) rest = rest a w
  resume (panicked why, w) rest = (panicked why, w)
  resume (exited code, w) rest = (exited code, w)

  infixl 5 ◌>>=◌ ◌>>◌
  abbrev pub ◌>>=◌ : Program A → (A → Program B) → Program B
  m >>= rest = λ w. resume (m w) rest

  abbrev pub ◌>>◌ : Program A → Program B → Program B
  m >> rest = m >>= λ _. rest

-- `println!` and `eprintln!`
abbrev pub println : String → Program (Unit {0})
println line w = (returned tt, record w { stdout = w.stdout ++ line ∷ [] })

abbrev pub eprintln : String → Program (Unit {0})
eprintln line w = (returned tt, record w { stderr = w.stderr ++ warning line ∷ [] })

-- `std::process::exit`
abbrev pub exit : ℕ → Program (Unit {0})
exit code w = (exited code, w)

-- A generator of fresh values yields its first value, then its second, and so on.
abbrev pub draw : {A : Type 0} → (ℕ → A) → Program A
draw fresh w = (returned (fresh w.drawn), record w { drawn = suc w.drawn })

-- A panic, whose message the hook of the standard library reports.
abbrev pub reported : String → World → World
reported message w = record w { stderr = w.stderr ++ panic_report message ∷ [] }

abbrev pub panic : {A : Type 0} → String → Program A
panic message w = (panicked message, reported message w)

-- The message of a panic of `expect`.
abbrev pub unexpected : String → String → String
unexpected why e = why <> (": " <> e)

-- `Result::expect`, of an error that is given as the text that `Debug` prints of it. `unwrap` is
-- the same with a message of its own.
abbrev pub expect : {A : Type 0} → String → Result A String → Program A
expect why (ok a) w = (returned a, w)
expect why (err e) w = panic (unexpected why e) w

-- `Option::expect`

abbrev pub expect_some : {A : Type 0} → String → Option A → Program A
expect_some why (some a) w = (returned a, w)
expect_some why none w = panic why w
