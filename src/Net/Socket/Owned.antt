-- ===== src/Net/Socket/Owned.antt =====
-- What becomes of a descriptor: one handle holds it, or it was closed or given away.
use hpserver.Prelude.{
  ℕ, zero, suc, ◌+◌, ◌≤◌, ◌<◌, ◌≡◌, ◌≢◌, refl, ap, subst, arith, ◌==◌, Option, none, some, List, [],
  ◌∷◌, ◌++◌, Bool-cases, inl, inr, length, get_or, set, ==_iff,
}
use hpserver.Net.Socket.{
  SocketOps, socket_ops, fd_of, close_fd, Handles, socket_at, construct, move_at, assign_at,
  reset_at, release_at, without, destroy_at, count, holders, IsFree, Reached, begins, constructs,
  opens, moves, assigns, resets, releases, destroys,
}

pub count-++ : (k : ℕ) (xs ys : List ℕ) → count k (xs ++ ys) ≡ count k xs + count k ys
count-++ k [] ys = omega arith
count-++ k (x ∷ xs) ys = let rest = count-++ k xs ys in ground (arith, rest)

count-fd : (k : ℕ) (f : Option ℕ) → count k (close_fd f) ≤ 1
count-fd k none = omega arith
count-fd k (some f) = ground arith

-- The handle at a place, changed.
holders-set :
    (k i : ℕ) (ss : List SocketOps) (s : SocketOps)
    → i < length ss
    → holders k (set ss i s) + count k (close_fd (get_or ss i (socket_ops none)).fd)
      ≡ holders k ss + count k (close_fd s.fd)
holders-set k i [] s b = absurd (omega (arith, b))
holders-set k zero (t ∷ ss) s b = omega arith
holders-set k (suc i) (t ∷ ss) s b =
    let rest = holders-set k i ss s (omega (arith, b)) in omega (arith, rest)

-- A handle at any place, emptied.
holders-emptied :
    (k i : ℕ) (ss : List SocketOps)
    → holders k (set ss i (socket_ops none)) + count k (close_fd (get_or ss i (socket_ops none)).fd)
      ≡ holders k ss
holders-emptied k i [] = refl
holders-emptied k zero (t ∷ ss) = omega arith
holders-emptied k (suc i) (t ∷ ss) = let rest = holders-emptied k i ss in omega (arith, rest)

holders-without :
    (k i : ℕ) (ss : List SocketOps)
    → holders k (without i ss) + count k (close_fd (get_or ss i (socket_ops none)).fd)
      ≡ holders k ss
holders-without k i [] = refl
holders-without k zero (t ∷ ss) = omega arith
holders-without k (suc i) (t ∷ ss) = let rest = holders-without k i ss in omega (arith, rest)

get_or-set_ne :
    (i j : ℕ) (ss : List SocketOps) (s d : SocketOps)
    → i ≢ j
    → get_or (set ss i s) j d ≡ get_or ss j d
get_or-set_ne i j [] s d n = refl
get_or-set_ne zero zero (t ∷ ss) s d n = absurd (n refl)
get_or-set_ne zero (suc j) (t ∷ ss) s d n = refl
get_or-set_ne (suc i) zero (t ∷ ss) s d n = refl
get_or-set_ne (suc i) (suc j) (t ∷ ss) s d n = get_or-set_ne i j ss s d (λ e. n (ap suc e))

-- Every descriptor taken is held, closed or given away, and at most one handle holds it.
pub IsOwned : Handles → Type 0
IsOwned h =
    (k : ℕ)
    → (count k h.taken ≡ holders k h.sockets + count k h.closed + count k h.given)
      × (holders k h.sockets ≤ 1)

-- A descriptor that comes in.
free-count :
    (k : ℕ) (f : Option ℕ) (h : Handles)
    → IsFree f h
    → holders k h.sockets ≤ 1
    → holders k h.sockets + count k (close_fd f) ≤ 1
free-count k none h i b = omega (arith, b)
free-count k (some f) h i b = elim (Bool-cases (f == k)) [
  | inl e ↦
      let same = (==_iff f k).0 e in
      let i' : holders k h.sockets ≡ 0 = subst (λ x. holders x h.sockets ≡ 0) same i in
      rw e (omega (arith, i'))
  | inr e ↦ rw e (omega (arith, b))
]

construct-IsOwned : (f : Option ℕ) (h : Handles) → IsFree f h → IsOwned h → IsOwned (construct f h)
unfolding IsOwned
construct-IsOwned f h i o k =
    let (e, b) = o k in omega (arith, e, b, count-++ k (close_fd f) h.taken, free-count k f h i b)

move_at-IsOwned : (i : ℕ) (h : Handles) → IsOwned h → IsOwned (move_at i h)
unfolding IsOwned
move_at-IsOwned i h o k = let (e, b) = o k in omega (arith, e, b, holders-emptied k i h.sockets)

reset_at-IsOwned :
    (i : ℕ) (f : Option ℕ) (h : Handles)
    → i < length h.sockets
    → IsFree f h
    → IsOwned h
    → IsOwned (reset_at i f h)
unfolding IsOwned
reset_at-IsOwned i f h l r o k =
    let (e, b) = o k in
    omega (
      arith,
      e,
      b,
      holders-set k i h.sockets (socket_ops f) l,
      count-++ k (close_fd f) h.taken,
      count-++ k (close_fd (socket_at i h).fd) h.closed,
      free-count k f h r b,
    )

release_at-IsOwned : (i : ℕ) (h : Handles) → IsOwned h → IsOwned (release_at i h)
unfolding IsOwned
release_at-IsOwned i h o k =
    let (e, b) = o k in
    omega
      (arith, e, b, holders-emptied k i h.sockets, count-++ k (close_fd (socket_at i h).fd) h.given)

destroy_at-IsOwned : (i : ℕ) (h : Handles) → IsOwned h → IsOwned (destroy_at i h)
unfolding IsOwned
destroy_at-IsOwned i h o k =
    let (e, b) = o k in
    omega (
      arith,
      e,
      b,
      holders-without k i h.sockets,
      count-++ k (close_fd (socket_at i h).fd) h.closed,
    )

-- Two handles: the first is set to what the other held.
assigned-IsOwned :
    (i j : ℕ) (h : Handles)
    → i ≢ j
    → i < length h.sockets
    → IsOwned h
    → IsOwned (record h {
      sockets = set (set h.sockets i (socket_ops (socket_at j h).fd)) j (socket_ops none);
      closed = close_fd (socket_at i h).fd ++ h.closed;
    })
unfolding IsOwned
assigned-IsOwned i j h n l o k =
    let (e, b) = o k in
    let other = get_or-set_ne i j h.sockets (socket_ops (socket_at j h).fd) (socket_ops none) n in
    let emptied =
      rw other at (holders-emptied k j (set h.sockets i (socket_ops (socket_at j h).fd))) in
    omega (
      arith,
      e,
      b,
      emptied,
      holders-set k i h.sockets (socket_ops (socket_at j h).fd) l,
      count-++ k (close_fd (socket_at i h).fd) h.closed,
    )

assign_at-IsOwned :
    (i j : ℕ) (h : Handles) → i < length h.sockets → IsOwned h → IsOwned (assign_at i j h)
assign_at-IsOwned i j h l o = elim (Bool-cases (i == j)) [
  | inl e ↦ rw (e, assign_at) o
  | inr e ↦
      rw (e, assign_at) (assigned-IsOwned i j h (λ same. absurd (cc (e, (==_iff i j).1 same))) l o)
]

-- Whatever a program does with its handles, where the system and the caller hand over no
-- descriptor that a handle holds: as often as a descriptor was taken, it is held, closed or
-- given away, and no two handles hold it.
pub Reached-IsOwned : (h : Handles) → Reached h → IsOwned h
Reached-IsOwned _ begins = unfold IsOwned in λ k. (refl, omega arith)
Reached-IsOwned _ (constructs f h i r) = construct-IsOwned f h i (Reached-IsOwned h r)
Reached-IsOwned _ (opens c h i r) = construct-IsOwned (fd_of c) h i (Reached-IsOwned h r)
Reached-IsOwned _ (moves i h r) = move_at-IsOwned i h (Reached-IsOwned h r)
Reached-IsOwned _ (assigns i j h l r) = assign_at-IsOwned i j h l (Reached-IsOwned h r)
Reached-IsOwned _ (resets i f h l e r) = reset_at-IsOwned i f h l e (Reached-IsOwned h r)
Reached-IsOwned _ (releases i h r) = release_at-IsOwned i h (Reached-IsOwned h r)
Reached-IsOwned _ (destroys i h r) = destroy_at-IsOwned i h (Reached-IsOwned h r)
