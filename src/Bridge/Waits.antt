-- ===== src/Bridge/Waits.antt =====
-- The waits of the background loader of bridge/cmd/phc-bridge/main.go.
use phcremote_control.Prelude.{
  ℕ, zero, suc, ◌*◌, ◌≡◌, some, List, [], ◌∷◌, get_elem?, ltb, if◌then◌else◌, arith,
}
use phcremote_control.Bridge.{
  Attempt, succeeds, fails, stops_in, stops_after, max_backoff, next_backoff, load_from,
  background_loader,
}

abbrev pub capped : ℕ → ℕ
capped n = if ltb max_backoff n then max_backoff else n

-- A number doubled so many times.
abbrev pub doubled : ℕ → ℕ → ℕ
doubled n zero = n
doubled n (suc i) = doubled (n * 2) i

next_backoff-capped : (n : ℕ) → next_backoff (capped n) ≡ capped (n * 2)
unfolding next_backoff
next_backoff-capped n = ground arith

load_from-capped :
    (n : ℕ) (as' : List Attempt) (i w : ℕ)
    → get_elem? (load_from (capped n) as').0 i ≡ some w
    → w ≡ capped (doubled n i)
unfolding load_from
load_from-capped n [] i w e = cc
load_from-capped n (succeeds ∷ as') i w e = cc
load_from-capped n (stops_in ∷ as') i w e = cc
load_from-capped n (stops_after ∷ as') zero w e = ground arith
load_from-capped n (stops_after ∷ as') (suc i) w e = cc
load_from-capped n (fails ∷ as') zero w e = ground arith
load_from-capped n (fails ∷ as') (suc i) w e =
    load_from-capped (n * 2) as' i w (rw (rw (next_backoff-capped n) at e))

-- Whatever the attempts, each wait of the loader is two seconds, doubled once for each wait before it,
-- and at most a minute.
pub background_loader-capped :
    (as' : List Attempt) (i w : ℕ)
    → get_elem? (background_loader as').0 i ≡ some w
    → w ≡ capped (doubled 2_000_000_000 i)
unfolding background_loader
background_loader-capped as' i w e = load_from-capped 2_000_000_000 as' i w e
