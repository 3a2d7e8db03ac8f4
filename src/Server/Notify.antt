-- ===== src/Server/Notify.antt =====
-- src/hpserver.cpp: how a worker tells the main loop of a done event. A step is one access to the queue or to
-- the eventfd. `is_edge` says that a write of the eventfd has not been reported, which `epoll_wait` does once
-- (`EPOLLET`), and only while the counter is not 0. A write of the eventfd adds to its counter, and a read takes all of it. The last
-- two fields note what has happened.
use hpserver.Prelude.{
  ℕ, zero, suc, ◌≡◌, ◌∙◌, refl, sym, ap, arith, Bool, true, false, List, [], ◌∷◌, ◌++◌, ◌⊎◌, inl,
  inr,
}
use mathlib.Core.List.{append_assoc, append-nil}
use hpserver.Server.{ProxyDoneEvent}

-- Where `drain_proxy_done_events` stands: outside, in the loop of `read`, or in the loop of `try_pop`.
pub data Draining : Type 0 where
  idle : Draining
  reading : Draining
  popping : Draining

pub record Channel : Type 0 where
  pub proxy_done_queue : List ProxyDoneEvent
  pub counter : ℕ
  pub is_edge : Bool
  pub writers : ℕ
  pub draining : Draining
  pub pushed : List ProxyDoneEvent
  pub drained : List ProxyDoneEvent

abbrev pub channel : Channel
channel = record {
  proxy_done_queue = [];
  counter = 0;
  is_edge = false;
  writers = 0;
  draining = idle;
  pushed = [];
  drained = [];
}

-- `proxy_done_queue_.push`, after which its thread writes to the eventfd.
abbrev pub push_event : ProxyDoneEvent → Channel → Channel
push_event e c = record c {
  proxy_done_queue = c.proxy_done_queue ++ (e ∷ []);
  writers = suc c.writers;
  pushed = c.pushed ++ (e ∷ []);
}

-- `write` of the eventfd, by one of `writers` threads and those left of them.
abbrev pub write_event : ℕ → Channel → Channel
write_event writers c = record c { counter = suc c.counter; is_edge = true; writers = writers }

-- Whether `epoll_wait` has the eventfd to report.
abbrev pub is_reported : Bool → ℕ → Bool
is_reported false counter = false
is_reported true zero = false
is_reported true (suc n) = true

abbrev pub wake : Channel → Channel
wake c = record c { is_edge = false; draining = reading }

abbrev pub read_at : ℕ → Channel → Channel
read_at zero c = record c { draining = popping }
read_at (suc n) c = record c { counter = 0 }

abbrev pub pop_at : List ProxyDoneEvent → Channel → Channel
pop_at [] c = record c { draining = idle }
pop_at (e ∷ queue) c = record c { proxy_done_queue = queue; drained = c.drained ++ (e ∷ []) }

-- A further step of `drain_proxy_done_events`.
abbrev pub drain_at : Draining → Channel → Channel
drain_at idle c = c
drain_at reading c = read_at c.counter c
drain_at popping c = pop_at c.proxy_done_queue c

abbrev pub drain_once : Channel → Channel
drain_once c = drain_at c.draining c

-- In any order of the steps of the threads.
pub data Signalled : Channel → Type 0 where
  quiet : Signalled channel
  pushes : (e : ProxyDoneEvent) (c : Channel) → Signalled c → Signalled (push_event e c)
  writes : (n : ℕ) (c : Channel) → c.writers ≡ suc n → Signalled c → Signalled (write_event n c)
  wakes :
      (c : Channel)
      → is_reported c.is_edge c.counter ≡ true
      → c.draining ≡ idle
      → Signalled c
      → Signalled (wake c)
  drains : (c : Channel) → Signalled c → Signalled (drain_once c)

-- Something will still look at the queue, or it is empty.
IsCovered : Channel → Type 0
IsCovered c =
    (c.proxy_done_queue ≡ [])
    ⊎ ((n : ℕ) × (c.writers ≡ suc n))
    ⊎ (is_reported c.is_edge c.counter ≡ true)
    ⊎ (c.draining ≡ reading)
    ⊎ (c.draining ≡ popping)

-- The events drained, and then those in the queue, are those pushed.
abbrev pub IsInOrder : Channel → Type 0
IsInOrder c = c.drained ++ c.proxy_done_queue ≡ c.pushed

read_at-IsCovered :
    (n : ℕ) (c : Channel)
    → c.draining ≡ reading
    → IsInOrder c
    → IsCovered (read_at n c) × IsInOrder (read_at n c)
unfolding IsCovered
read_at-IsCovered zero c d o = (inr (inr (inr (inr refl))), o)
read_at-IsCovered (suc n) c d o = (inr (inr (inr (inl d))), o)

pop_at-IsCovered :
    (queue : List ProxyDoneEvent) (c : Channel)
    → c.proxy_done_queue ≡ queue
    → c.draining ≡ popping
    → IsInOrder c
    → IsCovered (pop_at queue c) × IsInOrder (pop_at queue c)
unfolding IsCovered
pop_at-IsCovered [] c q d o = (inl q, o)
pop_at-IsCovered (e ∷ queue) c q d o =
    (inr (inr (inr (inr d))), append_assoc c.drained (e ∷ []) queue ∙ (rw q at o))

drain_at-IsCovered :
    (d : Draining) (c : Channel)
    → c.draining ≡ d
    → IsCovered c × IsInOrder c
    → IsCovered (drain_at d c) × IsInOrder (drain_at d c)
drain_at-IsCovered idle c p k = k
drain_at-IsCovered reading c p (k, o) = read_at-IsCovered c.counter c p o
drain_at-IsCovered popping c p (k, o) = pop_at-IsCovered c.proxy_done_queue c refl p o

Signalled-IsCovered : (c : Channel) → Signalled c → IsCovered c × IsInOrder c
unfolding IsCovered
Signalled-IsCovered _ quiet = (inl refl, refl)
Signalled-IsCovered _ (pushes e c s) =
    let (k, o) = Signalled-IsCovered c s in
    (
      inr (inl (c.writers, refl)),
      sym (append_assoc c.drained c.proxy_done_queue (e ∷ [])) ∙ ap (λ xs. xs ++ (e ∷ [])) o,
    )
Signalled-IsCovered _ (writes n c w s) =
    let (k, o) = Signalled-IsCovered c s in (inr (inr (inl refl)), o)
Signalled-IsCovered _ (wakes c e d s) =
    let (k, o) = Signalled-IsCovered c s in (inr (inr (inr (inl refl))), o)
Signalled-IsCovered _ (drains c s) = drain_at-IsCovered c.draining c refl (Signalled-IsCovered c s)

-- No done event is left behind: in any order of the workers' pushes and writes and of the main loop's
-- wakes, reads and pops, when no thread has a write to do, the eventfd has none to report and the loop is
-- not draining, every event pushed has been drained, in order.
pub Signalled-drained :
    (c : Channel)
    → Signalled c
    → c.writers ≡ 0
    → is_reported c.is_edge c.counter ≡ false
    → c.draining ≡ idle
    → c.drained ≡ c.pushed
unfolding IsCovered
Signalled-drained c s w e d =
    let (k, o) = Signalled-IsCovered c s in
    elim k [
      | inl q ↦ sym (append-nil c.drained) ∙ (rw q at o)
      | inr (inl (n, p)) ↦ absurd (omega (arith, w, p))
      | inr (inr (inl p)) ↦ absurd (cc (p, e))
      | inr (inr (inr (inl p))) ↦ absurd (cc (p, d))
      | inr (inr (inr (inr p))) ↦ absurd (cc (p, d))
    ]
