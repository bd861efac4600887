-- ===== src/Remote/Stream/Ledger.antt =====
-- The ledger that the core's `listChanges` reads: events in ascending order of their sequences.
use dsh_chaos.Common.{ℕ, ◌≤◌, ◌<◌, List, [], ◌∷◌, ◌++◌, ◌≡◌, refl, ltb, filter, arith}
use dsh_chaos.Common.Texts.{big_int}
use dsh_chaos.Wire.{ChangeEvent}

-- What stands behind a cursor.
abbrev pub after : ℕ → List ChangeEvent → List ChangeEvent
after c = filter (λ e. ltb c (big_int e.seq))

abbrev pub IsAbove : ℕ → List ChangeEvent → Type 0
IsAbove b [] = Unit
IsAbove b (e ∷ es) = (b < big_int e.seq) × IsAbove (big_int e.seq) es

abbrev pub IsLedger : List ChangeEvent → Type 0
IsLedger [] = Unit
IsLedger (e ∷ es) = IsAbove (big_int e.seq) es

after-IsAbove : (b c : ℕ) (es : List ChangeEvent) → IsAbove b es → c ≤ b → after c es ≡ es
after-IsAbove b c [] h k = refl
after-IsAbove b c (e ∷ es) h k = ground (arith, after-IsAbove (big_int e.seq) c es h.1)

IsAbove-head :
    (b c : ℕ) (es : List ChangeEvent) (x : ChangeEvent) (rest : List ChangeEvent)
    → IsAbove b es
    → after c es ≡ x ∷ rest
    → b < big_int x.seq
IsAbove-head b c [] x rest h k = ground arith
IsAbove-head b c (e ∷ es) x rest h k = ground (arith, IsAbove-head (big_int e.seq) c es x rest h.1)

after-next_above :
    (b c : ℕ) (es : List ChangeEvent) (x : ChangeEvent) (rest : List ChangeEvent)
    → IsAbove b es
    → after c es ≡ x ∷ rest
    → after (big_int x.seq) es ≡ rest
after-next_above b c [] x rest h k = ground arith
after-next_above b c (e ∷ es) x rest h k = ground (
  arith,
  IsAbove-head (big_int e.seq) c es x rest h.1,
  after-next_above (big_int e.seq) c es x rest h.1,
  after-IsAbove (big_int e.seq) c es h.1,
  after-IsAbove (big_int e.seq) (big_int e.seq) es h.1,
)

-- The cursor of the first event behind a cursor leaves the rest.
pub after-next :
    (c : ℕ) (es : List ChangeEvent) (x : ChangeEvent) (rest : List ChangeEvent)
    → IsLedger es
    → after c es ≡ x ∷ rest
    → after (big_int x.seq) es ≡ rest
after-next c [] x rest h k = ground arith
after-next c (e ∷ es) x rest h k = ground (
  arith,
  IsAbove-head (big_int e.seq) c es x rest h,
  after-next_above (big_int e.seq) c es x rest h,
  after-IsAbove (big_int e.seq) c es h,
  after-IsAbove (big_int e.seq) (big_int e.seq) es h,
)

pub after-append :
    (c : ℕ) (xs ys : List ChangeEvent) → after c (xs ++ ys) ≡ after c xs ++ after c ys
after-append c [] ys = refl
after-append c (x ∷ xs) ys = ground (arith, after-append c xs ys)
