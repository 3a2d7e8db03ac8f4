-- ===== src/Util/ThreadsafeQueue/Chain.antt =====
-- The chain of nodes from the head to the tail.
use hpserver.Prelude.{
  ℕ, suc, ◌≤◌, ◌<◌, ◌≡◌, ◌∙◌, refl, sym, ap, subst, arith, true, false, ◌==◌, ==_iff, leb, Option,
  none, some, List, [], ◌∷◌, ◌++◌, Bool-cases, inl, inr,
}
use hpserver.Util.ThreadsafeQueue.{
  Node, ThreadsafeQueue, write, empty_node, push, pop_head, threadsafe_queue,
}

module _ {T : Type 0} where
  abbrev pub full : T → ℕ → Node T
  full v q = record { data_ = some v; next = some q }

  abbrev pub Absent : ℕ → List (ℕ × T) → Type 0
  Absent p [] = Unit
  Absent p ((a, v) ∷ cells) = (p == a ≡ false) × Absent p cells

  -- From `p` the pointers lead through different nodes to `t`.
  abbrev pub IsChain : (ℕ → Option (Node T)) → ℕ → List (ℕ × T) → ℕ → Type 0
  IsChain nodes p [] t = p ≡ t
  IsChain nodes p ((a, v) ∷ cells) t =
      (q : ℕ) × (p ≡ a) × Absent a cells × (nodes a ≡ some (full v q)) × IsChain nodes q cells t

  abbrev pub values : List (ℕ × T) → List T
  values [] = []
  values ((a, v) ∷ cells) = v ∷ values cells

  Absent-some :
      (nodes : ℕ → Option (Node T)) (p a t : ℕ) (cells : List (ℕ × T))
      → IsChain nodes a cells t
      → nodes p ≡ none
      → Absent p cells
  Absent-some nodes p a t [] c e = tt
  Absent-some nodes p a t ((b, v) ∷ cells) (q, h, d, n, r) e =
      (ground (arith, n, e, ap nodes, ==_iff p b), Absent-some nodes p q t cells r e)

  -- The tail stands for no value.
  Absent-empty :
      (nodes : ℕ → Option (Node T)) (p a t : ℕ) (cells : List (ℕ × T))
      → IsChain nodes a cells t
      → nodes p ≡ some empty_node
      → Absent p cells
  Absent-empty nodes p a t [] c e = tt
  Absent-empty nodes p a t ((b, v) ∷ cells) (q, h, d, n, r) e =
      (ground (arith, n, e, ap nodes, ==_iff p b), Absent-empty nodes p q t cells r e)

  write_self : (nodes : ℕ → Option (Node T)) (p : ℕ) (n : Option (Node T)) → write nodes p n p ≡ n
  unfolding write
  write_self nodes p n = ground (arith, ==_iff p p)

  write-other :
      (nodes : ℕ → Option (Node T)) (p a : ℕ) (n : Option (Node T))
      → a == p ≡ false
      → write nodes p n a ≡ nodes a
  unfolding write
  write-other nodes p a n e = rw e refl

  -- A write elsewhere leaves the chain as it is.
  IsChain-write :
      (nodes : ℕ → Option (Node T)) (p : ℕ) (n : Option (Node T)) (a t : ℕ) (cells : List (ℕ × T))
      → Absent p cells
      → IsChain nodes a cells t
      → IsChain (write nodes p n) a cells t
  unfolding write
  IsChain-write nodes p n a t [] d c = c
  IsChain-write nodes p n a t ((b, v) ∷ cells) d (q, h, f, m, r) = (
    q,
    h,
    f,
    ground (arith, m, d.0, ==_iff p b, ==_iff b p),
    IsChain-write nodes p n q t cells d.1 r,
  )

  Absent-append :
      (p b : ℕ) (v : T) (cells : List (ℕ × T))
      → Absent p cells
      → p == b ≡ false
      → Absent p (cells ++ ((b, v) ∷ []))
  Absent-append p b v [] d e = (e, tt)
  Absent-append p b v ((a, w) ∷ cells) d e = (d.0, Absent-append p b v cells d.1 e)

  -- A chain to a node that then points to `u`.
  IsChain-append :
      (nodes : ℕ → Option (Node T)) (a t u : ℕ) (v : T) (cells : List (ℕ × T))
      → IsChain nodes a cells t
      → Absent t cells
      → nodes t ≡ some (full v u)
      → IsChain nodes a (cells ++ ((t, v) ∷ [])) u
  IsChain-append nodes a t u v [] c d e = (u, c, tt, e, refl)
  IsChain-append nodes a t u v ((b, w) ∷ cells) (q, h, f, m, r) d e = (
    q,
    h,
    Absent-append b t v cells f (ground (arith, d.0, ==_iff t b, ==_iff b t)),
    m,
    IsChain-append nodes q t u v cells r d.1 e,
  )

  -- The queue holds these nodes, an empty one at the tail, and nothing where `new` will give
  -- addresses.
  pub record Holds (q : ThreadsafeQueue T) (cells : List (ℕ × T)) : Type 0 where
    pub chain : IsChain q.nodes q.head cells q.tail
    pub ending : q.nodes q.tail ≡ some empty_node
    pub unused : (a : ℕ) → q.fresh ≤ a → q.nodes a ≡ none

  pub threadsafe_queue-Holds : Holds threadsafe_queue []
  unfolding threadsafe_queue
  threadsafe_queue-Holds = record { chain = refl; ending = refl; unused = λ a l. ground (arith, l) }

  unused_tail : (q : ThreadsafeQueue T) (cells : List (ℕ × T)) → Holds q cells → q.tail < q.fresh
  unused_tail q cells h = elim (Bool-cases (leb q.fresh q.tail)) [
    | inl e ↦ absurd (ground (arith, h.ending, h.unused q.tail (ground (arith, e))))
    | inr e ↦ ground (arith, e)
  ]

  -- A push finds the node of the tail, and puts the value behind the others.
  pub push-Holds :
      (val : T) (q : ThreadsafeQueue T) (cells : List (ℕ × T))
      → Holds q cells
      → (q' : ThreadsafeQueue T) × (push val q ≡ some q')
        × (q'.head ≡ q.head)
        × Holds q' (cells ++ ((q.tail, val) ∷ []))
  unfolding push
  push-Holds val q cells h =
      let nodes = write q.nodes q.fresh (some empty_node) in
      let last : Node T = full val q.fresh in
      let free = h.unused q.fresh (omega arith) in
      let apart : q.fresh == q.tail ≡ false =
        ground (arith, free, h.ending, ap q.nodes, ==_iff q.fresh q.tail) in
      let absent = Absent-empty q.nodes q.tail q.head q.tail cells h.chain h.ending in
      let c1 =
        IsChain-write q.nodes q.fresh (some empty_node) q.head q.tail cells
          (Absent-some q.nodes q.fresh q.head q.tail cells h.chain free) h.chain in
      let c2 = IsChain-write nodes q.tail (some last) q.head q.tail cells absent c1 in
      (
        record {
          nodes = write nodes q.tail (some last);
          fresh = suc q.fresh;
          head = q.head;
          tail = q.fresh;
        },
        rw h.ending refl,
        refl,
        record {
          chain =
              IsChain-append (write nodes q.tail (some last)) q.head q.tail q.fresh val cells c2
                absent (write_self nodes q.tail (some last));
          ending =
              write-other nodes q.tail q.fresh (some last) apart
              ∙ write_self q.nodes q.fresh (some empty_node);
          unused = λ a l.
              let t = unused_tail q cells h in
              write-other nodes q.tail a (some last) (ground (arith, l, t))
              ∙ write-other q.nodes q.fresh a (some empty_node) (ground (arith, l))
              ∙ h.unused a (omega (arith, l));
        },
      )

  pub head-tail :
      (q : ThreadsafeQueue T) (cells : List (ℕ × T)) (t : ℕ)
      → Holds q cells
      → q.nodes t ≡ some empty_node
      → q.head == t ≡ true
      → cells ≡ []
  head-tail q [] t h e k = refl
  head-tail q ((a, v) ∷ cells) t h e k =
      let (p, b, d, n, r) = h.chain in
      absurd (ground (arith, n, e, k, b, ap q.nodes, ==_iff q.head t))

  -- The first node of a chain is read, and freed.
  pub pop_head-Holds :
      (a : ℕ) (v : T) (q : ThreadsafeQueue T) (cells : List (ℕ × T))
      → Holds q ((a, v) ∷ cells)
      → (q' : ThreadsafeQueue T) × (pop_head (q.nodes q.head) q ≡ some (some v, q'))
        × Holds q' cells
  pop_head-Holds a v q cells h =
      let (p, b, d, n, r) = h.chain in
      let m : q.nodes q.head ≡ some (full v p) = ap q.nodes b ∙ n in
      let apart : q.tail == q.head ≡ false =
        ground (arith, m, h.ending, ap q.nodes, ==_iff q.tail q.head) in
      (
        record q { nodes = write q.nodes q.head none; head = p },
        rw (m, pop_head) refl,
        record {
          chain =
              IsChain-write q.nodes q.head none p q.tail cells
                (subst (λ x. Absent x cells) (sym b) d) r;
          ending = write-other q.nodes q.head q.tail none apart ∙ h.ending;
          unused = λ x l. elim (Bool-cases (x == q.head)) [
            | inl e ↦ absurd (ground (arith, m, h.unused x l, ap q.nodes ((==_iff x q.head).0 e)))
            | inr e ↦ write-other q.nodes q.head x none e ∙ h.unused x l
          ];
        },
      )
