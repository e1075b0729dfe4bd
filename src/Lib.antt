-- ===== src/Lib.antt =====
-- mpz, a library of multi-party computation: garbled circuits, correlated memory, oblivious linear
-- evaluation and share conversion. This library models the core algorithms and proves that they are
-- correct.
--
-- The parts and the files that model them:
--   - Block (`crates/core/src/block.rs`, `crates/core/src/aes.rs`): a block is an indexed list of 128
--     bits, bit 0 first, which is the pointer bit. Block.Cipher is the tweakable hash `tccr`; the AES
--     permutation is the parameter `encrypt`, of which nothing is assumed.
--   - Circuit (`crates/circuits-core/src/circuit.rs`, `components.rs`): gates, circuits, and evaluation
--     on plain bits with its errors. Circuit.Shape says what a well-formed circuit is. Circuit.Builder
--     (`builder.rs`) is the builder, a state that each method takes and returns; Circuit.Ops (`ops.rs`)
--     has the arithmetic that is built with it.
--   - Garble (`crates/garble-core/src/garbler.rs`, `evaluator.rs`, `crates/garble/src/garbler.rs`, `evaluator.rs`): the
--     half-gate AND, the garbler's iterator and the evaluator's consumer with their buffers, counters
--     and gate numbers. Garble.Correct puts a garbler, its gates and an evaluator together.
--     Garble.Batch sends the gates in padded batches, from a list of messages that the evaluator takes in order;
--     a list that ends is the channel's error. Garble.Bulk evaluates several circuits in one buffer, as the default
--     build does, without threads.
--   - Memory (`crates/memory-core/src/store.rs`, `correlated.rs`, `correlated/keys.rs`,
--     `correlated/macs.rs`): stores of values of which some are set, keys and MACs of bits, and the
--     stores that hold them, with proofs of MACs and their verification, where the hash is a parameter.
--     The sets of ranges are those of the package `rangeset`: Memory.RangeSets states the operations
--     that are called and what they do to membership, and has an instance.
--     Memory.View (`view.rs`) is the view of what is public, private and blind, and Memory.Vector
--     (`lib.rs`) the vectors and arrays of equal items.
--   - Cot (`crates/ot-core/src/cot/derandomize.rs`, `cot.rs`, `rcot.rs`): correlated oblivious transfer from
--     preprocessed random transfers, which are the operations of two traits.
--   - Rcot (`crates/ot-core/src/ideal/rcot.rs`, `rcot.rs`, `rot/randomize.rs`): the ideal random
--     correlated transfers, both parties and the message between them, which fill the two traits of Cot,
--     and the randomization of their outputs. The generator of the choices is the parameter `random`.
--   - Ggm (`crates/core/src/cggm.rs`): the correlated GGM tree and the punctured one, over the hash `ccr` of
--     Block.Cipher. A level is a list of nodes, where the code has a prefix of one buffer.
--   - Ferret (`crates/ot-core/src/ferret/spcot.rs`, `spcot/sender.rs`, `spcot/receiver.rs`, `mpcot.rs` and what
--     they call of `crates/core/src/utils.rs`, `crates/fields/src/lib.rs` and `gf2_128/soft.rs`): single-point correlated
--     transfers over the trees of Ggm, Ferret.Spcot, with their check, Ferret.Spcot.Check, whose challenges
--     Ferret.Chis folds, and Ferret.Mpcot, the plan of a multi-point extension. The cipher, the generator,
--     the hash and the product of polynomials are parameters.
--   - Lpn (`crates/core/src/lpn.rs`): the encoder of a local linear code, on blocks and on blocks with their bits.
--     The permutation with its key is the parameter `prp`; packed bits are the list of their bits.
--   - Zk (`crates/zk-core/src/prover.rs`, `verifier.rs`, `check.rs`, `vole.rs`, and one circuit of
--     `crates/zk/src/prover.rs`, `verifier.rs`): the QuickSilver proof of a circuit. Zk.Prover and Zk.Verifier are
--     the two executions, Zk.Check the triples and their check, Zk.Protocol the exchange for one circuit.
--     The hasher with its generator, and the crate `clmul`, are parameters.
--   - Field (`crates/fields/src/lib.rs`, `gf2.rs`): the trait as a record of operations, its laws as
--     another, and the field of one bit, which satisfies them.
--   - Ole (`crates/ole-core/src/lib.rs`, `adjust.rs`): shares of a product from the masks of random
--     oblivious transfers, over any field, and their adjustment to chosen inputs.
--     Ole.Parties (`crates/ole-core/src/sender.rs`, `receiver.rs`) are the two parties with their queues, over
--     random transfers that are the operations of two traits. Ole.Any (`crates/ot-core/src/rot/any.rs`,
--     `rot/randomize.rs`) makes these of the ideal transfers of Rcot, with the generator's draws as a parameter, and
--     Ole.Ideal runs the parties over them.
--   - ShareConversion (`crates/share-conversion-core/src/a2m.rs`): additive shares become shares of a
--     product, with a share of Ole.
--   - Prelude: lists and tests over the native numbers, ranges, and the outcome of fallible code. A
--     returned error is `err`; an index out of range, a failed assertion or an `expect` is `panic`.
--
-- The garbler garbles circuits of Circuit with the keys and the delta that Memory's key store holds; the
-- evaluator gets the MACs of the same relation. A share of Ole feeds ShareConversion. The prover and the
-- verifier of Zk hold MACs and keys of that relation too, and Cot runs over the transfers of Rcot. A multi-point
-- extension of Ferret is one single-point extension for each interval, over the trees of Ggm.
--
-- Bounds and fuel: a `usize` is a natural number, since the code adds at most the sizes of vectors that
-- are in memory. The garbler's and the evaluator's loops over the gates of a circuit recurse on the gates
-- that are left. The loop that collects the encrypted gates has the number of gates, plus one, as its
-- fuel: each round but the last takes at least one gate, so the fuel does not run out. The loop that sends
-- batches has the same fuel, and each batch takes at least one gate. The loop that collects
-- the prover's adjustment bits has the number of AND gates, plus one: each round but the last takes one.
-- The chunks of a buffer recurse with its length as fuel: each takes at least one element.
-- The offset and the ids of Rcot and the ids of Ole.Parties wrap at 2 ^ 64, the keys of Rcot at 2 ^ 128. Powers of
-- two are looked for below 2 ^ 32 in Lpn and below 2 ^ 64 in Ferret.Mpcot, which are the widths of the numbers.
--
-- Not modelled: base oblivious transfers, the KOS extension, the rounds of Ferret above
-- multi-point transfers, the larger fields and carry-less multiplication, the parser of circuit files, the stores
-- of the zero-knowledge parties, the batching of calls, the queues of share conversion, and the runtime of the asynchronous
-- code, of which the protocols are modelled as functions on the messages.
pub mod Prelude
pub mod Block
pub mod Circuit
pub mod Garble
pub mod Field
pub mod Memory
pub mod Cot
pub mod Rcot
pub mod Ggm
pub mod Lpn
pub mod Ferret
pub mod Ole
pub mod ShareConversion
pub mod Zk
