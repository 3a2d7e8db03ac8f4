-- ===== src/Tests/Timer.antt =====
-- Tests of the timer, after tests/timer_test.cpp.
use hpserver.Prelude.{
  ℕ, ◌+◌, ◌≤◌, ◌≡◌, refl, arith, Option, none, some, List, [], ◌∷◌, pos, ==_iff, ◌==◌, ap, ◌∙◌,
  false, Bool-cases, inl, inr,
}
use hpserver.Util.Timer.{
  Entry, Timer, timer, find, add, adjust, remove, tick, discard_stale_top, assign, erase,
}
use hpserver.Util.Timer.Keep.{find-remove}
use hpserver.Util.Timer.Live as Live
use hpserver.Util.Timer.Live.{IsValid, add-IsValid, remove-IsValid}
use hpserver.Util.Timer.Tick as Tick
use hpserver.Util.Timer.Tick.{AreAfter}
use hpserver.Util.Timer.Early as Early
use hpserver.Util.Timer.Early.{IsCompact, remove-length}

empty_IsValid : IsValid {C = ℕ} timer
unfolding find
empty_IsValid = (tt, tt, λ id e f. absurd (ground (arith, f)))

-- The ids 1 and 2, that expire at 3 and 9 milliseconds. A callback is the id of its connection.
abbrev one : Timer ℕ
one = add (pos 1) 3 1 0 timer

abbrev two : Timer ℕ
two = add (pos 2) 9 2 0 one

two_IsValid : IsValid two
two_IsValid = add-IsValid (pos 2) 9 2 0 one (add-IsValid (pos 1) 3 1 0 timer empty_IsValid)

-- The callback takes its own id out, and notes it.
abbrev call : ℕ → Timer ℕ × List ℕ → Timer ℕ × List ℕ
call id (t, s) = (remove id t, id ∷ s)

abbrev clock : ℕ → ℕ
clock i = 5000000 + i

abbrev fired : Option (Timer ℕ × List ℕ) → List ℕ
fired none = []
fired (some r) = r.1

tick_fires : fired (tick call clock two []) ≡ 1 ∷ []
unfolding tick discard_stale_top add find assign remove erase
tick_fires = refl

operations-IsValid_example :
    IsValid (add (pos 2) 4 7 1 two) × IsValid (adjust 2 4 1 two) × IsValid (remove 2 two)
operations-IsValid_example = Live.operations-IsValid 2 4 7 1 two two_IsValid

call_mild : Tick.IsMild call clock
call_mild = λ c t s v. (remove-IsValid c t v, remove-length c t)

clock_up : (i : ℕ) → clock 0 ≤ clock i
clock_up i = omega arith

tick-Settled_example :
    (r : Timer ℕ × List ℕ) × (tick call clock two [] ≡ some r) × IsValid r.0 × AreAfter 5000000 r.0
tick-Settled_example = Tick.tick-Settled call clock call_mild clock_up two [] two_IsValid

abbrev late : Entry ℕ
late = record { expires_at = 9000000; callback = 2; version = 1 }

abbrev frozen : ℕ → ℕ
frozen i = 5000000

two-IsOwn : Early.IsOwn 2 late two.entries
unfolding find add assign
two-IsOwn k g f d c = elim (Bool-cases (1 == k)) [
  | inl q ↦ absurd (ground (arith, f, q, c, ap (λ (x : Entry ℕ). x.callback)))
  | inr q ↦ absurd (ground (arith, f, q, d))
]

-- The callback of another id takes that id out.
call_spares : Early.Spares 2 late call frozen
call_spares c t s d (v, f, own) =
    let other : c == 2 ≡ false = ground (arith, d, ==_iff c 2) in
    (
      (
        remove-IsValid c t v,
        find-remove c 2 t v.1 ∙ rw other f,
        λ k g h n. own k g (ground (arith, h, find-remove c k t v.1)) n,
      ),
      remove-length c t,
    )

tick-Stays_example :
    (r : Timer ℕ × (List ℕ × List ℕ)) × (tick (Early.noted 2 late call frozen) frozen two ([], [])
      ≡ some r)
    × (find 2 r.0.entries ≡ some late)
    × Early.IsUncalled 2 r.1.1
unfolding find add assign
tick-Stays_example =
    Early.tick-Stays 2 late call frozen call_spares (λ i. omega arith) two []
      (two_IsValid, refl, two-IsOwn)

add-remove-IsCompact_example : IsCompact (add (pos 3) 1 3 0 two) × IsCompact (remove 3 two)
add-remove-IsCompact_example = Early.add-remove-IsCompact 3 1 3 0 two
