-- ===== src/Lib.antt =====
-- Liquet decides whether funds of a settlement move, signs the decision, and answers ERC-8004
-- validation requests with it.
--
-- The parts, and the files that model them. Paths are from the root of the repository.
--
--   src/seam.rs                       Seam         the types that every producer targets
--   src/decide.rs                     Decide       `decide` for one leg, `decide_crossvm` for two
--   src/attest.rs                     Attest       `DecisionBinding`, `sign_decision`, `verify_decision`
--   src/erc8004/mod.rs                Erc8004      `validation_response`, `verify_bundle`
--   src/erc8004/store.rs              Erc8004/Store, with Mem and File for the two stores
--   `FileStore`, put after put        Erc8004/Store/File/History
--   src/erc8004/validator.rs          Erc8004/Validator           `handle_request`
--   the same, request after request   Erc8004/Validator/History
--   the same, over a disk that fails  Erc8004/Validator/OnDisk
--   the same, over `MemStore`         Erc8004/Validator/Answers
--   src/erc8004/liquet_validator.rs   Erc8004/Validator/Pipeline  `LiquetValidator`
--   src/adapters/custos.rs            Adapters/Custos
--   src/adapters/probatio.rs          Adapters/Probatio
--   src/adapters/xvm_custos.rs        Adapters/XvmCustos
--   src/bin/xvm_demo.rs               Demo/Xvm
--   src/bin/slice.rs                  Demo/Slice
--
-- How they interact. The wired validator re-executes both legs, reconciles them (Adapters/Probatio),
-- screens the delivery leg by a replay (Adapters/XvmCustos, and Adapters/Custos for its verdict),
-- gates (Decide) and signs (Attest). `handle_request` maps the receipt to a response, puts the
-- evidence in a store, and gives the action for the chain; a relying party checks the evidence with
-- `verify_bundle`.
--
-- The two programs under src/bin drive the parts by hand: Demo/Slice the gate for one leg over
-- Custos, Demo/Xvm that for two legs over probatio and the screen. They run in a world that counts
-- the values drawn and holds both outputs (Demo/Program); an end is a return, a panic with its
-- message, whose report goes to the error output, or an exit with its code.
--
-- How the code is modelled. A function of the code has its name here; what it pushes to a vector at
-- one place is a function of its own (`check_executed`, `check_coverage`), and the whole appends
-- them in the code's order. `DecisionBinding::new` is `new_binding`, `PolicySnapshot::of` is
-- `snapshot_of`, `content_hash` is `digest_hex`. The variant `BundleError::Malformed` is
-- `malformed_bundle`. Errors are values of `Result`, and `?` is a step of a do block. A store's
-- state is an argument and a result. The map of `MemStore` is an association list; the map of an
-- outcome is a list of entries in the order in which its iterator yields them. Numbers are natural
-- numbers; the code adds none of them, its one subtraction saturates at 0 as that of the natural
-- numbers does, and the encoding of 64-bit fields is stated for numbers below 2 ^ 64. Recursion is
-- structural, but for the digits of a number, where the fuel is the number plus one, and a number
-- has no more digits than that.
--
-- What other crates do is a parameter. Attest/Crates has what is called of sha2, hex, ed25519-dalek
-- and serde_json, and `IsDocumented` what these document: round trips, lengths, lower-case hex, and
-- that a signature by a key verifies under it. Nothing is assumed of collisions or forgeries: a
-- theorem that depends on them has them as further outcomes. Erc8004/Store/File has `std::fs`, with
-- paths of Unix in UTF-8 and any call that writes failing or not; Adapters/Custos the public keys;
-- Adapters/XvmCustos LiteSVM and custos_engine; Erc8004/Validator/Pipeline probatio_xvm; Demo/Slice
-- the keypairs, the parsers and the files. An error of another crate is the text that the code
-- prints of it, by `Display` or by `Debug`; one of probatio_xvm has both. What `Debug` prints of a
-- text is a parameter of Demo/Xvm, as is the JSON of a decision, which is taken to be always there.
-- Sample has small instances of all of these, for the tests.
--
-- What is not modelled: `FileStore::temp`, which reads the environment; the JSON that serde derives;
-- src/lib.rs and src/adapters/mod.rs, which pass names on; and the web page.
--
-- The other files: Common has lists, Booleans, results, text and decimals. A module named for what
-- it proves stands under its component (Decide/Gate, Decide/Reasons, Attest/Verify/Commitment).
-- Erc8004/Validator/Pipeline/Faithful states, as hypotheses, what the code says of probatio_xvm and
-- of custos_engine where it relies on it. The unit tests of the code are Boolean functions of the
-- crates, the keys and the store (Decide/Tests/Cases, Attest/Tests/Cases, Erc8004/Tests/Cases,
-- Stores and Requests, Erc8004/Validator/Pipeline/Cases), but for the two on the golden vector,
-- which is a value of the real SHA-256. Tests run them on the samples, and hold each theorem at a
-- concrete input; two tests of src/attest.rs that the weak checksum of the sample cannot pass are in
-- Attest/Tests/Rebound for all crates.
pub mod Common
pub mod Seam
pub mod Decide
pub mod Attest
pub mod Erc8004
pub mod Adapters
pub mod Demo
pub mod Sample
