-- ===== src/Mount/Prefetch.antt =====
-- modules/mount/src/prefetch.cpp: detection of sequential reads on one file handle.
use synapse_fs.Prelude.{
  ℕ, ◌+◌, ◌%◌, ◌^◌, min, ◌≡◌, refl, ◌∙◌, Bool, true, not, List, [], ◌∷◌, ◌++◌, arith, ltb, leb,
  ◌==◌, if◌then◌else◌, length,
}

pub record PrefetchOptions : Type 0 where
  pub max_ahead_frames : ℕ
  pub trigger_streak : ℕ
  pub enabled : Bool

pub record PrefetchState : Type 0 where
  pub opts : PrefetchOptions
  pub next_expected : ℕ
  pub streak : ℕ

unfoldable pub init : PrefetchOptions → PrefetchState
init opts = record { opts = opts; next_expected = 0; streak = 0 }

unfoldable pub sequential : PrefetchState → Bool
sequential s = leb s.opts.trigger_streak s.streak

-- Record a read; the result is the number of frames to fill ahead.
unfoldable pub observe : PrefetchState → ℕ → ℕ → PrefetchState × ℕ
unfolding sequential
observe s offset length =
    if not s.opts.enabled
    then (s, 0)
    else (let in_order = offset == s.next_expected in
        let streak' =
          if in_order
          then (if ltb s.streak s.opts.trigger_streak then s.streak + 1 else s.streak)
          else 0 in
        let s' = record s { next_expected = (offset + length) % 2 ^ 64; streak = streak' } in
        if not (sequential s') then (s', 0) else (s', s.opts.max_ahead_frames))

unfoldable pub reset : PrefetchState → PrefetchState
reset s = record s { next_expected = 0; streak = 0 }

-- The reads of a handle, one after the other.
unfoldable pub observe_all : PrefetchState → List (ℕ × ℕ) → PrefetchState
unfolding observe
observe_all s [] = s
observe_all s ((offset, length) ∷ reads) = observe_all (observe s offset length).0 reads

-- How many of the latest reads each began where the one before it ended, when `run` of them did
-- before and the next is expected at `expected`.
unfoldable pub in_order_run : ℕ → ℕ → List (ℕ × ℕ) → ℕ
in_order_run expected run [] = run
in_order_run expected run ((offset, length) ∷ reads) =
    in_order_run ((offset + length) % 2 ^ 64) (if offset == expected then run + 1 else 0) reads

observe-streak :
    (s : PrefetchState) (run offset length : ℕ)
    → s.opts.enabled ≡ true
    → s.streak ≡ min s.opts.trigger_streak run
    → let s' = (observe s offset length).0 in
      (s'.streak ≡ min s.opts.trigger_streak (if offset == s.next_expected then run + 1 else 0))
      × (s'.next_expected ≡ (offset + length) % 2 ^ 64)
      × (s'.opts ≡ s.opts)
unfolding observe
observe-streak s run offset length on e = ground arith

observe_all-streak :
    (s : PrefetchState) (run : ℕ) (reads : List (ℕ × ℕ))
    → s.opts.enabled ≡ true
    → s.streak ≡ min s.opts.trigger_streak run
    → (observe_all s reads).streak
      ≡ min s.opts.trigger_streak (in_order_run s.next_expected run reads)
unfolding observe_all in_order_run
observe_all-streak s run [] on e = e
observe_all-streak s run ((offset, length) ∷ reads) on e =
    let (streak, expected, same) = observe-streak s run offset length on e in
    let run' = if offset == s.next_expected then run + 1 else 0 in
    let s' = (observe s offset length).0 in
    let ih = observe_all-streak s' run' reads (rw same on) (rw same streak) in
    rw (same, expected) at ih

-- From a fresh handle with readahead on, the streak is the number of latest reads in order, up to
-- the trigger.
pub observe_all_lem :
    (opts : PrefetchOptions) (reads : List (ℕ × ℕ))
    → opts.enabled ≡ true
    → (observe_all (init opts) reads).streak ≡ min opts.trigger_streak (in_order_run 0 0 reads)
unfolding init
observe_all_lem opts reads on = observe_all-streak _ 0 reads on (omega arith)

observe-ahead :
    (s : PrefetchState) (offset length : ℕ)
    → s.opts.enabled ≡ true
    → let s' = (observe s offset length).0 in
      (observe s offset length).1
      ≡ (if leb s.opts.trigger_streak s'.streak then s.opts.max_ahead_frames else 0)
unfolding observe
observe-ahead s offset length on = ground arith

observe-opts : (s : PrefetchState) (offset length : ℕ) → (observe s offset length).0.opts ≡ s.opts
unfolding observe
observe-opts s offset length = ground arith

observe_all-opts : (s : PrefetchState) (reads : List (ℕ × ℕ)) → (observe_all s reads).opts ≡ s.opts
unfolding observe_all
observe_all-opts s [] = refl
observe_all-opts s ((offset, length) ∷ reads) =
    observe_all-opts (observe s offset length).0 reads ∙ observe-opts s offset length

observe_all-append :
    (s : PrefetchState) (reads : List (ℕ × ℕ)) (offset length : ℕ)
    → observe_all s (reads ++ (offset, length) ∷ [])
      ≡ (observe (observe_all s reads) offset length).0
unfolding observe_all
observe_all-append s [] offset length = refl
observe_all-append s ((o, l) ∷ reads) offset length =
    observe_all-append (observe s o l).0 reads offset length

leb-min : (a b : ℕ) → leb a (min a b) ≡ leb a b
leb-min a b = ground arith

-- So a read is followed by readahead exactly when the trigger's number of latest reads, that read
-- included, were each in order, and then by the configured number of frames.
pub observe_after :
    (opts : PrefetchOptions) (reads : List (ℕ × ℕ)) (offset length : ℕ)
    → opts.enabled ≡ true
    → (observe (observe_all (init opts) reads) offset length).1 ≡ (
        if leb opts.trigger_streak (in_order_run 0 0 (reads ++ (offset, length) ∷ []))
        then opts.max_ahead_frames
        else 0)
unfolding init
observe_after opts reads offset length on =
    let s = observe_all (init opts) reads in
    let same = observe_all-opts (init opts) reads in
    let streak =
      rw (observe_all-append (init opts) reads offset length) at
        (observe_all_lem opts (reads ++ (offset, length) ∷ []) on) in
    observe-ahead s offset length (rw same on)
    ∙ simp
        (
          same,
          streak,
          leb-min opts.trigger_streak (in_order_run 0 0 (reads ++ (offset, length) ∷ [])),
        )
        refl
