-- ===== src/Logger/Drain.antt =====
-- Entries are written in the order of their acceptance.
pub mod Ending
use hpserver.Prelude.{
  ℕ, zero, suc, ◌+◌, ◌*◌, ◌≤◌, ◌<◌, ◌⊎◌, ◌≡◌, ◌∙◌, refl, sym, ap, subst, arith, Bool, true, false,
  not, ◌||◌, ◌==◌, Option, none, some, List, [], ◌∷◌, ◌++◌, if◌then◌else◌, Bool-cases, Option-cases,
  inl, inr, Bytes, length,
}
use mathlib.Core.List.{append_assoc, append-nil}
use hpserver.Util.RingBuffer.{RingBuffer, ring_buffer, is_empty}
use hpserver.Util.RingBuffer as Ring
use hpserver.Util.RingBuffer.Refine.{
  IsValid, contents, first, rest, ring_buffer-IsValid, ring_buffer-contents, ==-false,
  size-contents, push_refines, pop_refines,
}
use hpserver.Logger.{
  log_entry, Writer, not_started, testing, waiting, popping, writing, ended, Logger, noted,
  write_to, has_entry, popped, pop_entry, step_at, writer_step, stop, run_writer, is_mtx_free,
  Logged, started, logs, writes, stops,
}

-- The entry that the writer holds.
abbrev pub held : Writer → List Bytes
held not_started = []
held testing = []
held waiting = []
held popping = []
held (writing entry) = entry ∷ []
held ended = []

-- With its queue, what is written, held and queued is what has been accepted.
abbrev pub IsKept : Logger → Type 0
IsKept l =
    (q : RingBuffer Bytes) × (l.log_queue ≡ some q)
    × IsValid [] q
    × (l.out ++ (held l.writer ++ contents [] q) ≡ l.accepted)

-- A queue to which an entry is offered, when the queue says whether it has taken it.
pushed-IsKept :
    (entry : Bytes) (l : Logger) (q : RingBuffer Bytes) (full : Bool)
    → l.out ++ (held l.writer ++ contents [] q) ≡ l.accepted
    → (r : RingBuffer Bytes × Bool) → r.1 ≡ not full
    → contents [] r.0 ≡ (if full then contents [] q else contents [] q ++ (entry ∷ []))
    → IsValid [] r.0
    → IsKept (noted r.1 entry (record l { log_queue = some r.0 }))
pushed-IsKept entry l q true k (q', ok) a c w = rw a (q', refl, w, rw c k)
pushed-IsKept entry l q false k (q', ok) a c w = rw a (
  q',
  refl,
  w,
  rw c (
      ap (λ xs. l.out ++ xs) (sym (append_assoc (held l.writer) (contents [] q) (entry ∷ [])))
      ∙ sym (append_assoc l.out (held l.writer ++ contents [] q) (entry ∷ []))
      ∙ ap (λ xs. xs ++ (entry ∷ [])) k),
)

write_to-IsKept : (entry : Bytes) (l : Logger) → IsKept l → IsKept (write_to l.log_queue entry l)
write_to-IsKept entry l (q, e, v, k) =
    let (b, c, w) = push_refines [] q entry v in
    rw (e, write_to)
      (pushed-IsKept entry l q (length (contents [] q) == q.capacity) k (Ring.push [] q entry) b c
        w)

-- A writer whose queue has given its first entry.
popped-IsKept :
    (l : Logger) (q : RingBuffer Bytes) (xs : List Bytes)
    → contents [] q ≡ xs
    → l.out ++ xs ≡ l.accepted
    → (r : RingBuffer Bytes × Option Bytes) → r.1 ≡ first [] xs
    → contents [] r.0 ≡ rest [] xs
    → IsValid [] r.0
    → IsKept (record l { log_queue = some r.0; writer = popped r.1 })
popped-IsKept l q [] s k (q', m) a c w = rw a (q', refl, w, rw c k)
popped-IsKept l q (x ∷ xs) s k (q', m) a c w = rw a (q', refl, w, rw c k)

pop_entry-IsKept : (l : Logger) → l.writer ≡ popping → IsKept l → IsKept (pop_entry l.log_queue l)
pop_entry-IsKept l p (q, e, v, k) =
    let (b, c, w) = pop_refines [] q v in
    rw (e, pop_entry) (popped-IsKept l q (contents [] q) refl (rw p at k) (Ring.pop [] q) b c w)

held-if : (b : Bool) (u w : Writer) → held u ≡ [] → held w ≡ [] → held (if b then u else w) ≡ []
held-if true u w a c = a
held-if false u w a c = c

-- A step of the writer that neither takes nor writes an entry.
moved-IsKept :
    (l : Logger) (w : Writer)
    → held l.writer ≡ []
    → held w ≡ []
    → IsKept l
    → IsKept (record l { writer = w })
moved-IsKept l w a b (q, e, v, k) = (q, e, v, rw b (rw a at k))

step_at-IsKept : (w : Writer) (l : Logger) → l.writer ≡ w → IsKept l → IsKept (step_at w l)
step_at-IsKept not_started l p k = k
step_at-IsKept testing l p k =
    moved-IsKept l _ (rw p refl)
      (held-if (l.running || has_entry l.log_queue) waiting ended refl refl) k
step_at-IsKept waiting l p k =
    moved-IsKept l _ (rw p refl)
      (held-if (not l.running || has_entry l.log_queue) popping waiting refl refl) k
step_at-IsKept popping l p k = pop_entry-IsKept l p k
step_at-IsKept (writing entry) l p (q, e, v, k) =
    (q, e, v, append_assoc l.out (entry ∷ []) (contents [] q) ∙ (rw p at k))
step_at-IsKept ended l p k = k

stop-IsKept : (l : Logger) → IsKept l → IsKept (stop l)
stop-IsKept l k = elim (Bool-cases (is_mtx_free l.writer)) [
  | inl e ↦ rw (e, stop) k
  | inr e ↦ rw (e, stop) k
]

-- In any interleaving of the callers, the writer and the destructor after `init`, the entries
-- written, then the one the writer holds, then those in the queue, are the entries that the
-- queue has accepted, in the order of acceptance.
pub Logged-IsKept : (buffer_size : ℕ) (l : Logger) → Logged buffer_size l → IsKept l
unfolding writer_step
Logged-IsKept b _ started =
    (ring_buffer [] b, refl, ring_buffer-IsValid [] b, ring_buffer-contents [] b)
Logged-IsKept b _ (logs t level file_name line user_msg l r) =
    write_to-IsKept (log_entry t level file_name line user_msg) l (Logged-IsKept b l r)
Logged-IsKept b _ (writes l r) = step_at-IsKept l.writer l refl (Logged-IsKept b l r)
Logged-IsKept b _ (stops l r) = stop-IsKept l (Logged-IsKept b l r)
