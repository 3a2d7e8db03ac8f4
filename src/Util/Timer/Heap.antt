-- ===== src/Util/Timer/Heap.antt =====
-- The heap in its order.
use hpserver.Prelude.{
  ℕ, ◌≤◌, ◌≡◌, ◌∙◌, refl, sym, ap, arith, true, ltb, ◌==◌, ==_iff, some, List, [], ◌∷◌, Bool-cases,
  ◌⊎◌, inl, inr, length,
}
use hpserver.Util.Timer.{Node, Entry, find, push, rebuild, node_of, is_current, drop_stale}

abbrev pub AreFrom : ℕ → List Node → Type 0
AreFrom time [] = Unit
AreFrom time (n ∷ h) = (time ≤ n.expires_at) × AreFrom time h

abbrev pub IsSorted : List Node → Type 0
IsSorted [] = Unit
IsSorted (n ∷ h) = AreFrom n.expires_at h × IsSorted h

abbrev pub Has : Node → List Node → Type 0
Has n [] = ⊥
Has n (m ∷ h) = (n ≡ m) ⊎ Has n h

AreFrom-le : (a b : ℕ) (h : List Node) → a ≤ b → AreFrom b h → AreFrom a h
AreFrom-le a b [] l f = tt
AreFrom-le a b (n ∷ h) l f = (omega arith, AreFrom-le a b h l f.1)

AreFrom-push :
    (a : ℕ) (n : Node) (h : List Node) → a ≤ n.expires_at → AreFrom a h → AreFrom a (push n h)
unfolding push
AreFrom-push a n [] l f = (l, tt)
AreFrom-push a n (m ∷ h) l f = elim (Bool-cases (ltb n.expires_at m.expires_at)) [
  | inl e ↦ rw e (l, f)
  | inr e ↦ rw e (f.0, AreFrom-push a n h l f.1)
]

pub push-IsSorted : (n : Node) (h : List Node) → IsSorted h → IsSorted (push n h)
unfolding push
push-IsSorted n [] s = (tt, tt)
push-IsSorted n (m ∷ h) s = elim (Bool-cases (ltb n.expires_at m.expires_at)) [
  | inl e ↦
      rw e ((ground (arith, e), AreFrom-le n.expires_at m.expires_at h (ground (arith, e)) s.0), s)
  | inr e ↦ rw e (AreFrom-push m.expires_at n h (ground (arith, e)) s.0, push-IsSorted n h s.1)
]

pub Has-push_self : (n : Node) (h : List Node) → Has n (push n h)
unfolding push
Has-push_self n [] = inl refl
Has-push_self n (m ∷ h) = elim (Bool-cases (ltb n.expires_at m.expires_at)) [
  | inl e ↦ rw e (inl refl)
  | inr e ↦ rw e (inr (Has-push_self n h))
]

pub Has-push : (n m : Node) (h : List Node) → Has n h → Has n (push m h)
unfolding push
Has-push n m [] k = elim k [ ]
Has-push n m (x ∷ h) k = elim (Bool-cases (ltb m.expires_at x.expires_at)) [
  | inl e ↦ rw e (inr k)
  | inr e ↦ rw e (elim k [ inl l ↦ inl l | inr r ↦ inr (Has-push n m h r) ])
]

pub AreFrom-Has : (a : ℕ) (n : Node) (h : List Node) → AreFrom a h → Has n h → a ≤ n.expires_at
AreFrom-Has a n [] f k = elim k [ ]
AreFrom-Has a n (m ∷ h) f (inl e) = ground (arith, ap (λ (n : Node). n.expires_at) e)
AreFrom-Has a n (m ∷ h) f (inr k) = AreFrom-Has a n h f.1 k

module _ {C : Type 0} where
  pub rebuild-IsSorted : (entries : List (ℕ × Entry C)) → IsSorted (rebuild entries)
  unfolding rebuild
  rebuild-IsSorted [] = tt
  rebuild-IsSorted ((id, e) ∷ entries) =
      push-IsSorted (node_of id e) (rebuild entries) (rebuild-IsSorted entries)

  pub Has-rebuild :
      (entries : List (ℕ × Entry C)) (id : ℕ) (e : Entry C)
      → find id entries ≡ some e
      → Has (node_of id e) (rebuild entries)
  unfolding rebuild find
  Has-rebuild [] id e f = absurd (ground (arith, f))
  Has-rebuild ((j, g) ∷ entries) id e f = elim (Bool-cases (j == id)) [
    | inl h ↦
        let same : node_of id e ≡ node_of j g = ground (arith, h, f, ==_iff j id) in
        rw same (Has-push_self (node_of j g) (rebuild entries))
    | inr h ↦
        Has-push (node_of id e) (node_of j g) (rebuild entries)
          (Has-rebuild entries id e (rw h at f))
  ]

  pub drop_stale-IsSorted :
      (entries : List (ℕ × Entry C)) (h : List Node) → IsSorted h → IsSorted (drop_stale entries h)
  unfolding drop_stale
  drop_stale-IsSorted entries [] s = tt
  drop_stale-IsSorted entries (n ∷ h) s = elim (Bool-cases (is_current n (find n.id entries))) [
    | inl e ↦ rw e s
    | inr e ↦ rw e (drop_stale-IsSorted entries h s.1)
  ]

  is_current-node_of :
      (entries : List (ℕ × Entry C)) (n : Node) (id : ℕ) (e : Entry C)
      → find id entries ≡ some e
      → n ≡ node_of id e
      → is_current n (find n.id entries) ≡ true
  is_current-node_of entries n id e f l =
      ap (λ (m : Node). is_current m (find m.id entries)) l
      ∙ rw f (ground (arith, ==_iff e.version e.version, ==_iff e.expires_at e.expires_at))

  -- The node of an entry is current.
  pub Has-drop_stale :
      (entries : List (ℕ × Entry C)) (h : List Node) (id : ℕ) (e : Entry C)
      → find id entries ≡ some e
      → Has (node_of id e) h
      → Has (node_of id e) (drop_stale entries h)
  unfolding drop_stale
  Has-drop_stale entries [] id e f k = k
  Has-drop_stale entries (n ∷ h) id e f k = elim (Bool-cases (is_current n (find n.id entries))) [
    | inl c ↦ rw c k
    | inr c ↦ rw c (elim k [
      | inl l ↦ absurd (ground (arith, c, is_current-node_of entries n id e f (sym l)))
      | inr r ↦ Has-drop_stale entries h id e f r
    ])
  ]

  pub length-drop_stale :
      (entries : List (ℕ × Entry C)) (h : List Node) → length (drop_stale entries h) ≤ length h
  unfolding drop_stale
  length-drop_stale entries [] = omega arith
  length-drop_stale entries (n ∷ h) = ground (arith, length-drop_stale entries h)
