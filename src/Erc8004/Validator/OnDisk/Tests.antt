-- ===== src/Erc8004/Validator/OnDisk/Tests.antt =====
-- src/erc8004/validator.rs over `FileStore`: a small disk that fills up between the requests.
use liquet.Common.{String, ◌≡◌, ◌≢◌, refl, ◌<>◌, ◌⊎◌, true, some, ok, err, [], ok_injective}
use liquet.Common.Text.{join}
use liquet.Decide.{offending}
use liquet.Attest.{SignedDecision, new_binding}
use liquet.Attest.Crates.{Collision}
use liquet.Attest.Verify.{digest_hex, signer_text, sign_decision}
use liquet.Sample.Toy.{toy, toy-IsDocumented}
use liquet.Sample.Disk.{small, small-IsFaithful, small-IsFramed}
use liquet.Erc8004.{verify_bundle}
use liquet.Erc8004.Store.{other_kind}
use liquet.Erc8004.Store.File.{path_for, file_put, file_get}
use liquet.Erc8004.Validator.{store, respond}
use liquet.Erc8004.Validator.OnDisk.{HandlesBut, no_more, one_more, respond_survives_on_disk}
use liquet.Erc8004.Tests.Fixtures.{
  receipt, held, open_leg, temp, always, always-SignsWith, request, running,
}

abbrev after : SignedDecision → small.Disk → small.Disk
after x d = (file_put toy small temp d x).1

abbrev one : small.Disk
one = after receipt []

abbrev two : small.Disk
two = after held one

abbrev three : small.Disk
three = after open_leg two

abbrev uri_of : SignedDecision → String
uri_of x = "file://" <> path_for temp (digest_hex toy x.binding)

on_disk : Unit {0}
unfolding running file_put path_for offending join
on_disk = tt

open_differs : open_leg ≢ receipt
unfolding sign_decision new_binding
open_differs e = cc

-- A held settlement is answered.
held_answered : HandlesBut toy small temp true receipt one two
unfolding on_disk
held_answered = record {
  req = request;
  validator = always held;
  signs = always-SignsWith held refl;
  outcome = ok (respond "request-1" 0 (uri_of held) (digest_hex toy held.binding) "unsafe");
  handled = refl;
  spared = λ io e same. cc;
}

-- A half-open one is not, since the disk is full.
disk_full : HandlesBut toy small temp true receipt two three
unfolding on_disk
disk_full = record {
  req = request;
  validator = always open_leg;
  signs = always-SignsWith open_leg refl;
  outcome = err (store (record { kind = other_kind; message = "No space left" }));
  handled = refl;
  spared = λ io e same. elim (open_differs (ok_injective e)) [ ];
}

respond_survives_on_disk_example :
    let hash = digest_hex toy receipt.binding in
    ((bundle : String) × (file_get toy small three (record { uri = uri_of receipt }) ≡ ok bundle)
      × (verify_bundle toy bundle hash (signer_text toy true)
          ≡ ok (record { response = some 100; tag = "matched"; response_hash = hash })))
    ⊎ Collision toy
respond_survives_on_disk_example =
    respond_survives_on_disk toy small temp true toy-IsDocumented small-IsFaithful small-IsFramed
      request (always receipt) [] one three receipt 100 "request-1" (uri_of receipt)
      (digest_hex toy receipt.binding) "matched" (always-SignsWith receipt (unfold on_disk in refl))
      refl (unfold on_disk in refl) (one_more held_answered (one_more disk_full no_more))
