-- ===== src/Server/Launcher/Counting.antt =====
-- How many goroutines of internal/server/cxx-launcher.go stand where.
use nocc.Prelude.{
  ℕ, zero, suc, ◌+◌, ◌≤◌, Bool, true, false, some, List, [], ◌∷◌, ◌≡◌, arith, get_elem?, set,
}
use nocc.Server.Launcher.{
  Phase, entered, waiting, admitted, compiling, ended, counted, released, pushed,
}

abbrev pub bit : Bool → ℕ
bit true = 1
bit false = 0

abbrev pub count_of : (Phase → Bool) → List Phase → ℕ
count_of f [] = 0
count_of f (p ∷ ps) = bit (f p) + count_of f ps

-- Between the send on the channel and the receive.
abbrev pub is_admitted : Phase → Bool
is_admitted entered = false
is_admitted waiting = false
is_admitted released = false
is_admitted pushed = false
is_admitted _ = true

-- Counted as ready, but waiting.
abbrev pub is_waiting : Phase → Bool
is_waiting waiting = true
is_waiting admitted = true
is_waiting _ = false

-- From before the compiler runs till behind it.
abbrev pub is_compiling : Phase → Bool
is_compiling compiling = true
is_compiling (ended _) = true
is_compiling _ = false

abbrev pub is_counted : Phase → Bool
is_counted counted = true
is_counted released = true
is_counted pushed = true
is_counted _ = false

module _ (f : Phase → Bool) where
  pub count_of-set :
      (ps : List Phase) (i : ℕ) (p q : Phase)
      → get_elem? ps i ≡ some p
      → count_of f (set ps i q) + bit (f p) ≡ count_of f ps + bit (f q)
  count_of-set [] i p q e = cc e
  count_of-set (x ∷ ps) zero p q e = ground (arith, e)
  count_of-set (x ∷ ps) (suc i) p q e = omega (arith, count_of-set ps i p q e)

  pub bit-le-count_of :
      (ps : List Phase) (i : ℕ) (p : Phase) → get_elem? ps i ≡ some p → bit (f p) ≤ count_of f ps
  bit-le-count_of [] i p e = cc e
  bit-le-count_of (x ∷ ps) zero p e = ground (arith, e)
  bit-le-count_of (x ∷ ps) (suc i) p e = omega (arith, bit-le-count_of ps i p e)

pub count_of_mono :
    (f g : Phase → Bool) (ps : List Phase)
    → ((p : Phase) → bit (f p) ≤ bit (g p))
    → count_of f ps ≤ count_of g ps
count_of_mono f g [] h = omega arith
count_of_mono f g (p ∷ ps) h = omega (arith, h p, count_of_mono f g ps h)
