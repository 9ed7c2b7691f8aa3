-- ===== src/Codec/Examples.antt =====
-- Runs of the codec, and its properties at concrete inputs.
use synapse_fs.Prelude.{ℕ, ◌≡◌, refl, List, [], ◌∷◌, take, drop}
use synapse_fs.Codec.Planes.{byteplane_split, byteplane_join}
use synapse_fs.Codec.Planes.RoundTrip.{byteplane_join-split}
use synapse_fs.Codec.Permute.{dependency_runs, IsSorted, occurrences, dependency_runs_lem}
use synapse_fs.Core.Tensor.{run_units, IsMaximal}

byteplane_join-split_example :
    byteplane_join
      (byteplane_split (1 ∷ 2 ∷ 3 ∷ 4 ∷ 5 ∷ []) (0 ∷ 0 ∷ 0 ∷ 0 ∷ 0 ∷ []) 2)
      (9 ∷ 9 ∷ 9 ∷ 9 ∷ 9 ∷ [])
      2
    ≡ 1 ∷ 2 ∷ 3 ∷ 4 ∷ 5 ∷ []
byteplane_join-split_example =
    byteplane_join-split (1 ∷ 2 ∷ 3 ∷ 4 ∷ 5 ∷ []) (0 ∷ 0 ∷ 0 ∷ 0 ∷ 0 ∷ []) (9 ∷ 9 ∷ 9 ∷ 9 ∷ 9 ∷ [])
      2 refl refl

abbrev reversal : List ℕ
reversal = 4 ∷ 3 ∷ 2 ∷ 1 ∷ 0 ∷ []

dependency_runs_lem_example :
    IsSorted (run_units (dependency_runs reversal 1 3))
    × ((u : ℕ)
        → occurrences u (run_units (dependency_runs reversal 1 3))
          ≡ occurrences u (take 3 (drop 1 reversal)))
    × IsMaximal (dependency_runs reversal 1 3)
dependency_runs_lem_example = dependency_runs_lem reversal 1 3
