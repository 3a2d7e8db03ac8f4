-- ===== src/Logger/Drain/Ending.antt =====
-- What the writer does once `running` is false.
use hpserver.Prelude.{
  ℕ, zero, suc, ◌+◌, ◌*◌, ◌≤◌, ◌<◌, ◌⊎◌, ◌≡◌, ◌∙◌, refl, sym, ap, subst, arith, Bool, true, false,
  Option, none, some, List, [], ◌∷◌, Option-cases, inl, inr, Bytes, length,
}
use mathlib.Core.List.{append-nil}
use hpserver.Util.RingBuffer.{RingBuffer, ring_buffer, is_empty}
use hpserver.Util.RingBuffer as Ring
use hpserver.Util.RingBuffer.Refine.{
  IsValid, contents, first, rest, ==-false, size-contents, pop_refines,
}
use hpserver.Logger.{
  Writer, not_started, testing, waiting, popping, writing, ended, Logger, has_entry, popped,
  pop_entry, step_at, writer_step, run_writer, Logged,
}
use hpserver.Logger.Drain.{IsKept, step_at-IsKept, Logged-IsKept}

-- What the queue of entries holds.
abbrev pub queued : Option (RingBuffer Bytes) → List Bytes
queued none = []
queued (some q) = contents [] q

-- Whether the writer is in its loop.
abbrev pub is_active : Writer → Bool
is_active not_started = false
is_active testing = true
is_active waiting = true
is_active popping = true
is_active (writing entry) = true
is_active ended = false

-- A bound on the steps of a stopped writer, for the number of entries in the queue.
abbrev pub steps_left : Writer → ℕ → ℕ
steps_left not_started k = 0
steps_left testing k = 4 * k + 1
steps_left waiting zero = 3
steps_left waiting (suc k) = 4 * k + 4
steps_left popping zero = 2
steps_left popping (suc k) = 4 * k + 3
steps_left (writing entry) k = 4 * k + 2
steps_left ended k = 0

abbrev has_some : List Bytes → Bool
has_some [] = false
has_some (x ∷ xs) = true

has_entry_lem :
    (q : RingBuffer Bytes) (xs : List Bytes)
    → IsValid [] q
    → contents [] q ≡ xs
    → has_entry (some q) ≡ has_some xs
has_entry_lem q [] v e = rw ((size-contents [] q v).2, e) refl
has_entry_lem q (x ∷ xs) v e =
    rw ((size-contents [] q v).2, e, ==-false (length (x ∷ xs)) 0 (λ a. absurd (omega (arith, a))))
      refl

-- A stopped writer has ended with an empty queue, or fewer than `n` steps are left.
IsCloser : ℕ → Logger → Type 0
IsCloser n l =
    (l.running ≡ false)
    × ((l.writer ≡ ended) × (queued l.log_queue ≡ [])
        ⊎ (is_active l.writer ≡ true) × (steps_left l.writer (length (queued l.log_queue)) < n))

testing-IsCloser :
    (xs : List Bytes) (q : RingBuffer Bytes) (l : Logger)
    → l.log_queue ≡ some q
    → IsValid [] q
    → contents [] q ≡ xs
    → l.running ≡ false
    → IsCloser (4 * length xs + 1) (step_at testing l)
unfolding IsCloser
testing-IsCloser [] q l e v s r = rw (e, r, step_at, has_entry_lem q [] v s) (refl, inl (refl, s))
testing-IsCloser (x ∷ xs) q l e v s r =
    rw (e, r, step_at, has_entry_lem q (x ∷ xs) v s, s) (refl, inr (refl, omega arith))

waiting-IsCloser :
    (xs : List Bytes) (q : RingBuffer Bytes) (l : Logger)
    → l.log_queue ≡ some q
    → contents [] q ≡ xs
    → l.running ≡ false
    → IsCloser (steps_left waiting (length xs)) (step_at waiting l)
unfolding IsCloser
waiting-IsCloser [] q l e s r = rw (e, r, step_at, s) (refl, inr (refl, omega arith))
waiting-IsCloser (x ∷ xs) q l e s r = rw (e, r, step_at, s) (refl, inr (refl, omega arith))

popped-IsCloser :
    (xs : List Bytes) (l : Logger) (r : RingBuffer Bytes × Option Bytes)
    → r.1 ≡ first [] xs
    → contents [] r.0 ≡ rest [] xs
    → l.running ≡ false
    → IsCloser
        (steps_left popping (length xs))
        (record l { log_queue = some r.0; writer = popped r.1 })
unfolding IsCloser
popped-IsCloser [] l (q', m) a c r = rw (a, c) (r, inr (refl, omega arith))
popped-IsCloser (x ∷ xs) l (q', m) a c r = rw (a, c) (r, inr (refl, omega arith))

step_at-IsCloser :
    (w : Writer) (q : RingBuffer Bytes) (l : Logger)
    → l.writer ≡ w
    → is_active w ≡ true
    → l.log_queue ≡ some q
    → IsValid [] q
    → l.running ≡ false
    → IsCloser (steps_left w (length (contents [] q))) (step_at w l)
step_at-IsCloser not_started q l p a e v r = absurd (cc a)
step_at-IsCloser testing q l p a e v r = testing-IsCloser (contents [] q) q l e v refl r
step_at-IsCloser waiting q l p a e v r = waiting-IsCloser (contents [] q) q l e refl r
step_at-IsCloser popping q l p a e v r =
    let (b, c, w) = pop_refines [] q v in
    rw (e, step_at, pop_entry) (popped-IsCloser (contents [] q) l (Ring.pop [] q) b c r)
step_at-IsCloser (writing entry) q l p a e v r =
    unfold IsCloser in rw e (r, inr (refl, omega arith))
step_at-IsCloser ended q l p a e v r = absurd (cc a)

-- With its queue, a writer that has ended stays as it is.
run_writer-ended : (n : ℕ) (l : Logger) → l.writer ≡ ended → run_writer n l ≡ l
unfolding run_writer writer_step
run_writer-ended zero l e = refl
run_writer-ended (suc n) l e = ap (λ w. run_writer n (step_at w l)) e ∙ run_writer-ended n l e

step_at-accepted : (w : Writer) (l : Logger) → (step_at w l).accepted ≡ l.accepted
step_at-accepted not_started l = refl
step_at-accepted testing l = refl
step_at-accepted waiting l = refl
step_at-accepted popping l = elim (Option-cases l.log_queue) [
  | inl e ↦ rw (e, step_at, pop_entry) refl
  | inr (q, e) ↦ rw (e, step_at, pop_entry) refl
]
step_at-accepted (writing entry) l = refl
step_at-accepted ended l = refl

drained : (l : Logger) → IsKept l → l.writer ≡ ended → queued l.log_queue ≡ [] → l.out ≡ l.accepted
drained l (q, e, v, k) p s = sym (append-nil l.out) ∙ rw (p, (rw e at s)) at k

steps_left-positive : (w : Writer) (k : ℕ) → is_active w ≡ true → 0 < steps_left w k
steps_left-positive not_started k a = absurd (cc a)
steps_left-positive testing k a = omega arith
steps_left-positive waiting zero a = omega arith
steps_left-positive waiting (suc k) a = omega arith
steps_left-positive popping zero a = omega arith
steps_left-positive popping (suc k) a = omega arith
steps_left-positive (writing entry) k a = omega arith
steps_left-positive ended k a = absurd (cc a)

writer_step-IsCloser :
    (l : Logger)
    → IsKept l
    → l.running ≡ false
    → is_active l.writer ≡ true
    → IsCloser (steps_left l.writer (length (queued l.log_queue))) (writer_step l)
unfolding writer_step
writer_step-IsCloser l (q, e, v, k) r a =
    subst (λ o. IsCloser (steps_left l.writer (length (queued o))) (step_at l.writer l)) (sym e)
      (step_at-IsCloser l.writer q l refl a e v r)

run_writer-drains :
    (n : ℕ) (l : Logger)
    → IsKept l
    → l.running ≡ false
    → is_active l.writer ≡ true
    → steps_left l.writer (length (queued l.log_queue)) ≤ n
    → ((run_writer n l).writer ≡ ended) × ((run_writer n l).out ≡ l.accepted)
unfolding run_writer IsCloser
run_writer-drains zero l k r a b =
    absurd (omega (arith, b, steps_left-positive l.writer (length (queued l.log_queue)) a))
run_writer-drains (suc n) l k r a b =
    let (r', c) = writer_step-IsCloser l k r a in
    let k' : IsKept (writer_step l) = unfold writer_step in step_at-IsKept l.writer l refl k in
    let same : (writer_step l).accepted ≡ l.accepted =
      unfold writer_step in step_at-accepted l.writer l in
    elim c [
      | inl (p, s) ↦
          let stays = run_writer-ended n (writer_step l) p in
          (
            ap (λ m. m.writer) stays ∙ p,
            ap (λ m. m.out) stays ∙ drained (writer_step l) k' p s ∙ same,
          )
      | inr (a', b') ↦
          let (w, o) = run_writer-drains n (writer_step l) k' r' a' (omega (arith, b, b')) in
          (w, o ∙ same)
    ]

steps_left-bound : (w : Writer) (k : ℕ) → steps_left w k ≤ 4 * k + 3
steps_left-bound not_started k = omega arith
steps_left-bound testing k = omega arith
steps_left-bound waiting zero = omega arith
steps_left-bound waiting (suc k) = omega arith
steps_left-bound popping zero = omega arith
steps_left-bound popping (suc k) = omega arith
steps_left-bound (writing entry) k = omega arith
steps_left-bound ended k = omega arith

-- Once `running` is false, in any state that is reached with the writer in its loop, the writer
-- ends within four steps for each entry of the queue and three more, and every entry that
-- was accepted is then written, in order.
pub run_writer-accepted :
    (buffer_size : ℕ) (l : Logger)
    → Logged buffer_size l
    → l.running ≡ false
    → is_active l.writer ≡ true
    → (n : ℕ) → 4 * length (queued l.log_queue) + 3 ≤ n
    → ((run_writer n l).writer ≡ ended) × ((run_writer n l).out ≡ l.accepted)
run_writer-accepted b l g r a n d =
    run_writer-drains n l (Logged-IsKept b l g) r a
      (omega (arith, d, steps_left-bound l.writer (length (queued l.log_queue))))
