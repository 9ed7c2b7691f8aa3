-- ===== src/Lib.antt =====
-- SynapseFS stores checkpoints of neural networks as commits. A checkpoint file is cut into groups
-- of tensors; a group is stored in full, or as a delta: a permutation of the units of a base, a
-- residual against the permuted base, and frames of compressed bytes. A mount reconstructs the
-- file on demand.
--
-- The parts, by the directories of the repository, and the files here that model them:
-- * modules/core -> Core. `Error` has the error kinds and exit codes and the result type that all
--   parts use, `Oid` the identities of objects and their text, `Kind` their kinds, `Dtype` the
--   element types, `Endian` numbers in bytes, `Tensor` extents and unit runs, `Permutation` the
--   permutations of units, and `Topology` which axes of which tensors a group of units moves.
-- * modules/format -> Format. `Object` is the header of a loose object, with its table of chunk
--   digests in `Object/Chunks`; `Manifest` describes a checkpoint file, and is what a commit
--   names; `Diff` has the frames of a diff artifact and the permutation that is stored in it, with
--   the writer of modules/codec/src/diff_encoder.cpp.
-- * modules/codec -> Codec. `Permute` gathers units by a permutation. `Residual` and `Planes` are
--   the parts of a frame, and `Frame` puts them together as the encoder of
--   modules/codec/src/diff_encoder.cpp and apply_residual do, with the bit shuffle of
--   modules/codec/src/compress.cpp. `Gather`, and `Reconstruct` with its children, are
--   modules/codec/src/reconstruct.cpp: the base bytes of a frame, the frames of a tensor, the
--   permutation of a second axis (`Reconstruct/Secondary`), and the reading of groups and files
--   (`Reconstruct/Group`). `Policy` decides whether a group is stored in full.
-- * modules/store -> Store. `Dag` searches the commit graph (is_ancestor, merge_base), with the
--   walk by time and the reachable objects in `Dag/Walk`. `Merge` is plan_merge of
--   modules/store/src/merge_logic.cpp, which uses these searches and the manifests. `Files` is a
--   directory of files as the store reads and replaces them; `Refs` is RefStore over such files,
--   `Journal` the records of operations under way, their recovery, and the end of run_merge in
--   apps/sfs/cmd/merge.cpp that writes one around its update of a branch, and `Gc` the collector,
--   which takes its tips from `Refs` and the live objects from `Dag/Walk`. `Loose` reads loose
--   objects, whole or in ranges.
-- * modules/mount -> Mount. `Intervals` is the table from offsets in the file to groups, built
--   from a valid manifest, `Cache` the cache of frames (modules/mount/src/blockcache.cpp), a
--   function for each section that runs under its mutex, which `Cache/Steps` interleaves, and `Prefetch` the readahead of a handle.
-- `Prelude` and its children hold the lemmas on tests, lists, bytes and bits that the parts share,
-- and the files named Examples or Runs run the definitions on concrete inputs.
--
-- State is passed explicitly: a class is a record, and an operation takes it and returns it. A
-- byte is a number below 256, a string or a span a list of bytes, a std::map the list of its pairs
-- in key order, a null pointer or an empty std::optional `none`. Numbers are natural numbers;
-- where the code adds, subtracts or shifts in a fixed width, the wrap-around is written as a remainder.
--
-- Fuel: the searches of the commit graph are loops over a stack or a queue. They take a number of
-- rounds, and end when that number is larger than the number of parents in the repository, plus
-- one for the first commit; the file Store/Dag/Fuel.antt counts the parents that are still to be
-- pushed. The walk takes a round for each commit, and ends when the rounds are more than the
-- commits of the repository (Store/Dag/Walk/Fuel.antt). rev_parse follows a symbolic HEAD, and two
-- rounds are enough. The rounds of an eviction are as many as there are entries. read_chain takes
-- a round for each base of a chain, and its `limit` is not asked when the rounds are more than the
-- greatest depth allowed and one. The loop over the chunks of a buffer entry takes more rounds
-- than the entry has bytes, and the loop over the chunks of a loose object more than the range, as
-- each round reads one byte or more.
--
-- Parameters: the stores that a search or a reader reads, the reading of a base group
-- (`Reconstruct/Chain` puts the reading of a group for it), the decompression and the parser of an
-- artifact, the digest (BLAKE3 of a library), the sink of a reconstructed file, the JSON library's
-- text of a journal record, how the writes of a file end, the lock of a repository, whether the
-- process of a mount lives, and the comparison of floating-point sizes in the snapshot policy.
--
-- Not modelled: the text of manifests and commits (JSON of a library), the compression (zstd), the
-- files, processes and sockets of util, stio and net, the alignment of modules/align, which works
-- on floating-point costs, the FUSE requests and the command line, and, of the parts named above,
-- the writing of loose objects, packs and trees.
pub mod Prelude
pub mod Core
pub mod Codec
pub mod Format
pub mod Store
pub mod Mount
