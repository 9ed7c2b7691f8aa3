-- ===== src/Core/Error.antt =====
-- modules/core/include/synapsefs/core/error.hpp and modules/core/src/error.cpp. An error is its
-- kind: the message, the context and the source location that an `Error` carries are for people
-- and decide nothing, so they are left out.
use synapse_fs.Prelude.{ℕ, ◌≤◌, ◌≡◌, refl, ◌≢◌, ◌↔◌, ◌⊎◌, inl, inr, Bool, true, false, arith}

pub data ErrKind : Type 0 where
  ok_kind : ErrKind
  io no_such_file permission_denied no_space interrupted : ErrKind
  not_a_repository repository_locked unsupported_format_version : ErrKind
  ref_not_found ref_race_lost not_fast_forward : ErrKind
  object_not_found object_kind_mismatch malformed_object canonicalization_mismatch : ErrKind
  hash_mismatch chunk_digest_mismatch frame_digest_mismatch : ErrKind
  ancestor_invariant_violated journal_torn : ErrKind
  not_safetensors unsupported_dtype shape_mismatch tensor_not_in_buffer_layout : ErrKind
  topology_parse topology_incomplete block_factor_mismatch : ErrKind
  not_alignable invalid_permutation : ErrKind
  chain_too_deep merge_conflict : ErrKind
  mount_failed read_only_filesystem : ErrKind
  protocol_version malformed_frame connection_lost peer_error : ErrKind
  not_implemented cancelled internal : ErrKind

unfoldable pub is_integrity : ErrKind → Bool
is_integrity hash_mismatch = true
is_integrity chunk_digest_mismatch = true
is_integrity frame_digest_mismatch = true
is_integrity ancestor_invariant_violated = true
is_integrity journal_torn = true
is_integrity _ = false

-- The `switch` of Error::exit_code, behind its test of `is_integrity`.
exit_code_rest : ErrKind → ℕ
exit_code_rest ok_kind = 0
exit_code_rest not_a_repository = 3
exit_code_rest merge_conflict = 5
exit_code_rest repository_locked = 6
exit_code_rest not_implemented = 7
exit_code_rest protocol_version = 8
exit_code_rest malformed_frame = 8
exit_code_rest connection_lost = 8
exit_code_rest peer_error = 8
exit_code_rest _ = 1

unfoldable pub exit_code : ErrKind → ℕ
unfolding is_integrity exit_code_rest
exit_code k = elim (is_integrity k) [ true ↦ 4 | false ↦ exit_code_rest k ]

-- `std::expected<T, Error>`.
pub data Result {ℓ} (A : Type ℓ) : Type ℓ where
  ok : A → Result A
  err : ErrKind → Result A

abbrev pub Status : Type 0
Status = Result (Unit {0})

-- SFS_TRY and SFS_TRY_VOID: propagate on failure, unwrap on success.
infixl 5 ◌>>=◌ ◌>>◌
abbrev pub ◌>>=◌ {ℓ κ} : {T : Type ℓ} {U : Type κ} → Result T → (T → Result U) → Result U
err kind >>= go = err kind
ok value >>= go = go value

abbrev pub ◌>>◌ {ℓ} : {U : Type ℓ} → Status → Result U → Result U
st >> after = st >>= λ _. after

-- `if (!test) return SFS_ERR(kind, ...);`
abbrev pub guard : (test : Bool) (kind : ErrKind) → Status
guard false kind = err kind
guard true kind = ok tt

-- Inversion of a successful bind.
pub >>=-eq-ok {ℓ κ} :
    {T : Type ℓ} {U : Type κ} (r : Result T) (next : T → Result U) {u : U}
    → (r >>= next) ≡ ok u
    → (t : T) × (r ≡ ok t) × (next t ≡ ok u)
>>=-eq-ok (err kind) next h = cc
>>=-eq-ok (ok t) next h = (t, refl, h)

pub Result-cases {ℓ} :
    {A : Type ℓ} (r : Result A) → ((e : ErrKind) × (r ≡ err e)) ⊎ ((a : A) × (r ≡ ok a))
Result-cases (err e) = inl (e, refl)
Result-cases (ok a) = inr (a, refl)

-- A process exits with code 4 exactly when the error is of an integrity kind, with 0 exactly for
-- `Ok`, and never with a code above 8 or with 2.
pub exit_code_classes :
    (k : ErrKind)
    → ((exit_code k ≡ 4) ↔ (is_integrity k ≡ true))
      × ((exit_code k ≡ 0) ↔ (k ≡ ok_kind))
      × (exit_code k ≤ 8)
      × (exit_code k ≢ 2)
unfolding exit_code
exit_code_classes k = ground arith
