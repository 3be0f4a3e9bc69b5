-- ===== src/Server/Launcher/Bounds.antt =====
-- What the channel and the counters of internal/server/cxx-launcher.go say of the goroutines.
use nocc.Prelude.{ℕ, ◌+◌, ◌<◌, ◌≤◌, some, ◌≡◌, arith}
use nocc.Server.Launcher.Counting.{
  bit, count_of, is_admitted, is_waiting, is_compiling, is_counted, count_of-set, bit-le-count_of,
}
use nocc.Server.Launcher.{
  CxxLauncher, CxxEnd, make_cxx_launcher, advance, Launches, Step, launch, move, Reach, made, next,
  Phase, entered, waiting, admitted, starting, compiling, ended, stepped_down, counted, released,
  pushed,
}

pub record IsCounted (n : ℕ) (s : Launches) : Type 0 where
  pub limit : s.launcher.max_parallel ≡ n
  pub positive : 0 < n
  pub throttled : s.launcher.server_cxx_throttle ≡ count_of is_admitted s.goroutines
  pub room : s.launcher.server_cxx_throttle ≤ n
  pub queued : s.launcher.sessions_ready_but_waiting ≡ count_of is_waiting s.goroutines
  pub compiles : s.launcher.sessions_now_compiling ≡ count_of is_compiling s.goroutines
  pub calls : s.launcher.total_calls ≡ count_of is_counted s.goroutines
  pub kinds :
      s.launcher.more_10_sec_count + s.launcher.more_30_sec_count
        + s.launcher.non_zero_exit_code_count
      ≤ s.launcher.total_calls

-- What a step of a goroutine from `p` to `q` does to the counters.
record Moved (l : CxxLauncher) (p : Phase) (k : CxxLauncher) (q : Phase) : Type 0 where
  limit : k.max_parallel ≡ l.max_parallel
  throttled :
      k.server_cxx_throttle + bit (is_admitted p) ≡ l.server_cxx_throttle + bit (is_admitted q)
  room : k.server_cxx_throttle ≤ l.max_parallel
  queued :
      k.sessions_ready_but_waiting + bit (is_waiting p)
      ≡ l.sessions_ready_but_waiting + bit (is_waiting q)
  compiles :
      k.sessions_now_compiling + bit (is_compiling p)
      ≡ l.sessions_now_compiling + bit (is_compiling q)
  calls : k.total_calls + bit (is_counted p) ≡ l.total_calls + bit (is_counted q)
  kinds : k.more_10_sec_count + k.more_30_sec_count + k.non_zero_exit_code_count ≤ k.total_calls

module _ (e : CxxEnd) (l : CxxLauncher) (room : l.server_cxx_throttle ≤ l.max_parallel)
    (kinds : l.more_10_sec_count + l.more_30_sec_count + l.non_zero_exit_code_count
      ≤ l.total_calls) where
  advance-Moved :
      (p : Phase) {k : CxxLauncher} {q : Phase}
      → bit (is_waiting p) ≤ l.sessions_ready_but_waiting
      → bit (is_compiling p) ≤ l.sessions_now_compiling
      → advance e l p ≡ some (k, q)
      → Moved l p k q
  unfolding advance
  advance-Moved entered w c a = ground arith
  advance-Moved waiting w c a = ground arith
  advance-Moved admitted w c a = ground arith
  advance-Moved starting w c a = ground arith
  advance-Moved compiling w c a = ground arith
  advance-Moved (ended r) w c a = ground arith
  advance-Moved (stepped_down r) w c a = ground arith
  advance-Moved counted w c a = ground arith
  advance-Moved released w c a = ground arith
  advance-Moved pushed w c a = ground arith

Step-IsCounted : (n : ℕ) {s t : Launches} → Step s t → IsCounted n s → IsCounted n t
Step-IsCounted n launch h = record {
  limit = h.limit;
  positive = h.positive;
  throttled = omega (arith, h.throttled);
  room = h.room;
  queued = omega (arith, h.queued);
  compiles = omega (arith, h.compiles);
  calls = omega (arith, h.calls);
  kinds = h.kinds;
}
Step-IsCounted n {s} (move i e p {l} {q} at a) h =
    let gs = s.goroutines in
    let m =
      advance-Moved e s.launcher (omega (arith, h.room, h.limit)) h.kinds p
        (omega (arith, h.queued, bit-le-count_of is_waiting gs i p at))
        (omega (arith, h.compiles, bit-le-count_of is_compiling gs i p at)) a in
    record {
      limit = omega (arith, m.limit, h.limit);
      positive = h.positive;
      throttled = omega (arith, m.throttled, h.throttled, count_of-set is_admitted gs i p q at);
      room = omega (arith, m.room, h.limit);
      queued = omega (arith, m.queued, h.queued, count_of-set is_waiting gs i p q at);
      compiles = omega (arith, m.compiles, h.compiles, count_of-set is_compiling gs i p q at);
      calls = omega (arith, m.calls, h.calls, count_of-set is_counted gs i p q at);
      kinds = m.kinds;
    }

pub Reach-IsCounted : (n : ℕ) {s : Launches} → Reach n s → IsCounted n s
unfolding make_cxx_launcher
Reach-IsCounted n (made m) = ground arith
Reach-IsCounted n (next r st) = Step-IsCounted n st (Reach-IsCounted n r)
