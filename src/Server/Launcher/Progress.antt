-- ===== src/Server/Launcher/Progress.antt =====
-- How many compilers of internal/server/cxx-launcher.go run at once, and that the goroutines do not block
-- one another for ever.
use nocc.Prelude.{
  ℕ, suc, ◌+◌, ◌-◌, ◌<◌, ◌≤◌, Bool, true, false, some, List, [], ◌∷◌, ◌≡◌, ◌⊎◌, inl, inr, refl,
  arith, get_elem?, Bool-cases,
}
use nocc.Server.Launcher.Bounds.{IsCounted, Reach-IsCounted}
use nocc.Server.Launcher.Counting.{
  bit, count_of, is_admitted, is_compiling, bit-le-count_of, count_of_mono,
}
use nocc.Server.Launcher.{
  CxxLauncher, CxxEnd, advance, Launches, Reach, Phase, entered, waiting, admitted, starting,
  compiling, ended, stepped_down, counted, released, pushed,
}

abbrev pub Each : (Phase → Type 0) → List Phase → Type 0
Each P [] = Unit
Each P (p ∷ ps) = P p × Each P ps

abbrev FindPhase : (f : Phase → Bool) → List Phase → Type 0
FindPhase f ps = (i : ℕ) × (p : Phase) × (get_elem? ps i ≡ some p) × (f p ≡ true)

search_phases : (f : Phase → Bool) (ps : List Phase) → FindPhase f ps ⊎ Each (λ p. f p ≡ false) ps
search_phases f [] = inr tt
search_phases f (p ∷ ps) = elim (Bool-cases (f p)) [
  | inl here ↦ inl (0, p, refl, here)
  | inr not_here ↦ elim (search_phases f ps) [
    | inl (i, q, at, has) ↦ inl (suc i, q, at, has)
    | inr none_of ↦ inr (not_here, none_of)
  ]
]

-- Neither at the send on the channel, nor at the end.
abbrev is_free : Phase → Bool
is_free waiting = false
is_free pushed = false
is_free _ = true

abbrev is_sending : Phase → Bool
is_sending waiting = true
is_sending _ = false

free_advances :
    (e : CxxEnd) (l : CxxLauncher) (p : Phase)
    → is_free p ≡ true
    → bit (is_admitted p) ≤ l.server_cxx_throttle
    → (o : CxxLauncher × Phase) × (advance e l p ≡ some o)
unfolding advance
free_advances e l entered f b = (_, refl)
free_advances e l waiting f b = cc f
free_advances e l admitted f b = (_, refl)
free_advances e l starting f b = (_, refl)
free_advances e l compiling f b = (_, refl)
free_advances e l (ended r) f b = (_, refl)
free_advances e l (stepped_down r) f b = (_, refl)
free_advances e l counted f b =
    ((record l { server_cxx_throttle = l.server_cxx_throttle - 1 }, released), ground arith)
free_advances e l released f b = (_, refl)
free_advances e l pushed f b = cc f

-- One that sends has room in a channel that is not full.
sending_advances :
    (e : CxxEnd) (l : CxxLauncher) (p : Phase)
    → is_sending p ≡ true
    → l.server_cxx_throttle < l.max_parallel
    → (o : CxxLauncher × Phase) × (advance e l p ≡ some o)
unfolding advance
sending_advances e l p f b =
    ((record l { server_cxx_throttle = l.server_cxx_throttle + 1 }, admitted), ground arith)

not_free : (p : Phase) → is_free p ≡ false → (is_sending p ≡ true) ⊎ (p ≡ pushed)
not_free p f = ground arith

not_free_admitted : (p : Phase) → is_free p ≡ false → bit (is_admitted p) ≡ 0
not_free_admitted p f = ground arith

-- Without a free goroutine, none has a place in the channel.
no_free_admitted :
    (ps : List Phase) → Each (λ p. is_free p ≡ false) ps → count_of is_admitted ps ≡ 0
no_free_admitted [] h = refl
no_free_admitted (p ∷ ps) h = omega (arith, not_free_admitted p h.0, no_free_admitted ps h.1)

all_pushed :
    (ps : List Phase)
    → Each (λ p. is_free p ≡ false) ps
    → Each (λ p. is_sending p ≡ false) ps
    → Each (λ p. p ≡ pushed) ps
all_pushed [] f s = tt
all_pushed (p ∷ ps) f s = (ground (arith, not_free p), all_pushed ps f.1 s.1)

-- Some goroutine is not at its end, and has a next step.
abbrev pub CanMove : Launches → Type 0
CanMove s =
    (i : ℕ) × (p : Phase) × (get_elem? s.goroutines i ≡ some p)
    × ((e : CxxEnd) → (o : CxxLauncher × Phase) × (advance e s.launcher p ≡ some o))

IsCounted-CanMove :
    (n : ℕ) (s : Launches) → IsCounted n s → Each (λ p. p ≡ pushed) s.goroutines ⊎ CanMove s
IsCounted-CanMove n s h = elim (search_phases is_free s.goroutines) [
  | inl (i, p, at, free) ↦
      let has : bit (is_admitted p) ≤ s.launcher.server_cxx_throttle =
        omega (arith, h.throttled, bit-le-count_of is_admitted s.goroutines i p at) in
      inr (i, p, at, (λ e. free_advances e s.launcher p free has))
  | inr none_free ↦ elim (search_phases is_sending s.goroutines) [
    | inl (i, p, at, sends) ↦
        let room : s.launcher.server_cxx_throttle < s.launcher.max_parallel =
          omega
            (arith, h.throttled, h.limit, h.positive, no_free_admitted s.goroutines none_free) in
        inr (i, p, at, (λ e. sending_advances e s.launcher p sends room))
    | inr none_sends ↦ inl (all_pushed s.goroutines none_free none_sends)
  ]
]

compiling_admitted : (p : Phase) → bit (is_compiling p) ≤ bit (is_admitted p)
compiling_admitted p = ground arith

-- In every state that goroutines of a launcher of `n` places reach, in any order of their steps, the
-- number of compilers that run is `n` at most. The channel holds an element for each goroutine between
-- its send and its receive; the counters of the sessions that wait, of those that compile and of the
-- calls are the numbers of goroutines that stand there; and the calls counted as slow, very slow or
-- failed are no more than the calls. Unless all goroutines are at their end, there is one that does not
-- block on the channel, however its compiler ends.
pub Reach-IsCounted-CanMove :
    (n : ℕ) (s : Launches)
    → Reach n s
    → IsCounted n s
      × (count_of is_compiling s.goroutines ≤ n)
      × (Each (λ p. p ≡ pushed) s.goroutines ⊎ CanMove s)
Reach-IsCounted-CanMove n s r =
    let h = Reach-IsCounted n r in
    (
      h,
      omega (
        arith,
        h.throttled,
        h.room,
        count_of_mono is_compiling is_admitted s.goroutines compiling_admitted,
      ),
      IsCounted-CanMove n s h,
    )
