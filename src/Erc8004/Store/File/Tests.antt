-- ===== src/Erc8004/Store/File/Tests.antt =====
-- src/erc8004/store.rs: `FileStore` over a small disk, where a put fails.
use liquet.Common.{◌≡◌, refl, ◌≢◌, ◌⊎◌}
use liquet.Common.{[], ok, err}
use liquet.Common.Text.{join}
use liquet.Attest.{new_binding}
use liquet.Decide.{offending}
use liquet.Attest.Crates.{Collision}
use liquet.Attest.Verify.{digest_hex, sign_decision}
use liquet.Sample.Toy.{toy, toy-IsDocumented}
use liquet.Erc8004.{evidence_bundle_json}
use liquet.Erc8004.Store.{other_kind}
use liquet.Erc8004.Store.File.{path_for, uri_for, file_put, file_get}
use liquet.Sample.Disk.{small, small-IsFaithful, small-IsFramed}
use liquet.Erc8004.Store.File.History.{done, next, file_put_survives}
use liquet.Erc8004.Tests.Fixtures.{receipt, unsure, open_leg, temp, running}

abbrev first : small.Disk
first = (file_put toy small temp [] receipt).1

abbrev second : small.Disk
second = (file_put toy small temp first unsure).1

-- The put of a third receipt fails.
abbrev third : small.Disk
third = (file_put toy small temp second open_leg).1

third_fails :
    (file_put toy small temp second open_leg).0
    ≡ err (record { kind = other_kind; message = "No space left" })
unfolding running file_put offending join
third_fails = refl

unsure_differs : unsure.binding ≢ receipt.binding
unfolding sign_decision new_binding
unsure_differs e = cc

open_differs : open_leg.binding ≢ receipt.binding
unfolding sign_decision new_binding
open_differs e = cc

file_put_survives_example :
    (file_get toy small third (uri_for (path_for temp (digest_hex toy receipt.binding)))
      ≡ ok (evidence_bundle_json toy receipt))
    ⊎ Collision toy
file_put_survives_example =
    file_put_survives toy small temp toy-IsDocumented small-IsFaithful small-IsFramed receipt
      (uri_for (path_for temp (digest_hex toy receipt.binding))) [] first third
      (unfold running file_put in refl)
      (next unsure (λ e. elim (unsure_differs e) [ ])
        (next open_leg (λ e. elim (open_differs e) [ ]) done))
