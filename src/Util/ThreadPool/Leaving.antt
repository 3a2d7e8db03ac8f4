-- ===== src/Util/ThreadPool/Leaving.antt =====
-- When a worker ends, while `stop(false)` has not been called.
use hpserver.Prelude.{
  ◌≡◌, ◌∙◌, refl, arith, Bool, true, false, ◌&&◌, ◌||◌, ◌==◌, List, [], ◌∷◌, ◌++◌, if◌then◌else◌,
  Bool-cases, inl, inr, ◌⊎◌,
}
use hpserver.Util.ThreadPool.{
  ThreadPool, Worker, looking, counting, zeroing, running, checking, waiting, exited, Stopper, idle,
  flagging, clearing, clear_counting, clear_zeroing, joining, stopped, try_pop, work, has_exited,
  all_exited, is_free,
}

-- Where `stop(true)` stands.
unfoldable pub IsAt : Stopper → Bool → Type 0
IsAt idle joined = Unit
IsAt flagging joined = ⊥
IsAt (clearing true) joined = joined ≡ true
IsAt (clearing false) joined = ⊥
IsAt (clear_counting b) joined = ⊥
IsAt (clear_zeroing b) joined = ⊥
IsAt joining joined = Unit
IsAt stopped joined = joined ≡ true

pub IsAt-imp : (st : Stopper) (a b : Bool) → ((a ≡ true) → (b ≡ true)) → IsAt st a → IsAt st b
unfolding IsAt
IsAt-imp idle a b f k = tt
IsAt-imp flagging a b f k = k
IsAt-imp (clearing true) a b f k = f k
IsAt-imp (clearing false) a b f k = k
IsAt-imp (clear_counting c) a b f k = k
IsAt-imp (clear_zeroing c) a b f k = k
IsAt-imp joining a b f k = tt
IsAt-imp stopped a b f k = f k

module _ {T : Type 0} where
  -- Nothing is left to do, and nothing comes.
  abbrev pub IsQuiet : ThreadPool T → Type 0
  IsQuiet p = (p.is_done ≡ true) × (p.task_queue ≡ []) × (is_free p.producer ≡ true)

  abbrev pub any_exited : List (Worker T) → Bool
  any_exited [] = false
  any_exited (w ∷ ws) = has_exited w || any_exited ws

  -- While `stop(false)` has not been called: no task is dropped, and no worker ends while there is
  -- something to do.
  unfoldable pub Graceful : Stopper → ThreadPool T → Bool → Bool → Type 0
  Graceful st p any joined =
      (p.stop_flags ≡ false) × (p.dropped ≡ []) × ((any ≡ false) ⊎ IsQuiet p) × IsAt st joined

  -- Of a worker's step.
  unfoldable pub After : Bool → Worker T × ThreadPool T → Type 0
  After any (w, p) =
      (p.stop_flags ≡ false) × (p.dropped ≡ []) × (((any || has_exited w) ≡ false) ⊎ IsQuiet p)

  try_pop-After :
      (any : Bool) (queue : List T) (w : Worker T) (p : ThreadPool T)
      → queue ≡ p.task_queue
      → p.stop_flags ≡ false
      → p.dropped ≡ []
      → (any ≡ false) ⊎ IsQuiet p
      → (has_exited w ≡ false) ⊎ ((queue ≡ []) → IsQuiet p)
      → After any (try_pop queue w p)
  unfolding After
  try_pop-After any [] w p q f d (inr e) k = (f, d, inr e)
  try_pop-After any [] w p q f d (inl a) (inl k) = (f, d, inl (ground (arith, a, k)))
  try_pop-After any [] w p q f d (inl a) (inr k) = (f, d, inr (k refl))
  try_pop-After any (t ∷ ts) w p q f d (inl a) k = (f, d, inl (ground (arith, a)))
  try_pop-After any (t ∷ ts) w p q f d (inr e) k = absurd (ground (arith, q ∙ e.1))

  not_exited :
      (b : Bool) (x y : Worker T)
      → has_exited x ≡ false
      → has_exited y ≡ false
      → has_exited (if b then x else y) ≡ false
  not_exited true x y p q = p
  not_exited false x y p q = q

  same :
      (any : Bool) (w : Worker T) (p : ThreadPool T)
      → has_exited w ≡ false
      → (any ≡ false) ⊎ IsQuiet p
      → ((any || has_exited w) ≡ false) ⊎ IsQuiet p
  same any w p h (inl a) = inl (ground (arith, a, h))
  same any w p h (inr q) = inr q

  alone :
      (any : Bool) (w : Worker T) (p : ThreadPool T)
      → ((any || has_exited w) ≡ false) ⊎ IsQuiet p
      → (any ≡ false) ⊎ IsQuiet p
  alone any w p (inl a) = inl (ground (arith, a))
  alone any w p (inr q) = inr q

  leaving :
      (p : ThreadPool T)
      → p.stop_flags ≡ false
      → is_free p.producer ≡ true
      → (has_exited {T = T} (if p.is_done || p.stop_flags then exited else waiting) ≡ false)
        ⊎ ((p.task_queue ≡ []) → IsQuiet p)
  leaving p f b = elim (Bool-cases p.is_done) [
    | inl q ↦ inr (λ n. (q, n, b))
    | inr q ↦ inl (rw (q, f) refl)
  ]

  pub work-After :
      (any : Bool) (w : Worker T) (p : ThreadPool T)
      → p.stop_flags ≡ false
      → p.dropped ≡ []
      → ((any || has_exited w) ≡ false) ⊎ IsQuiet p
      → After any (work w p)
  unfolding work After
  work-After any looking p f d e =
      try_pop-After any p.task_queue waiting p refl f d (alone any looking p e) (inl refl)
  work-After any (counting t) p f d e = (
    f,
    d,
    same any (if p.queued_task_count == 0 then zeroing t else running t) p
        (not_exited (p.queued_task_count == 0) (zeroing t) (running t) refl refl)
        (alone any (counting t) p e),
  )
  work-After any (zeroing t) p f d e = (f, d, e)
  work-After any (running t) p f d e = (f, d, e)
  work-After any checking p f d e = (f, d, rw f e)
  work-After any waiting p f d e = elim (Bool-cases (is_free p.producer)) [
    | inr b ↦ rw b (f, d, e)
    | inl b ↦ rw b (
        try_pop-After any p.task_queue (if p.is_done || p.stop_flags then exited else waiting) p
          refl f d (alone any waiting p e) (leaving p f b))
  ]
  work-After any exited p f d e = (f, d, e)

  pub any_exited-append :
      (xs ys : List (Worker T)) → any_exited (xs ++ ys) ≡ (any_exited xs || any_exited ys)
  any_exited-append [] ys = refl
  any_exited-append (w ∷ ws) ys = ground (arith, any_exited-append ws ys)

  pub all_exited-append :
      (xs ys : List (Worker T)) → all_exited (xs ++ ys) ≡ (all_exited xs && all_exited ys)
  all_exited-append [] ys = refl
  all_exited-append (w ∷ ws) ys = ground (arith, all_exited-append ws ys)

  -- The end of a worker is its end.
  pub work-exited :
      (w : Worker T) (p : ThreadPool T) → has_exited w ≡ true → has_exited (work w p).0 ≡ true
  unfolding work
  work-exited looking p e = absurd (ground (arith, e))
  work-exited (counting t) p e = absurd (ground (arith, e))
  work-exited (zeroing t) p e = absurd (ground (arith, e))
  work-exited (running t) p e = absurd (ground (arith, e))
  work-exited checking p e = absurd (ground (arith, e))
  work-exited waiting p e = absurd (ground (arith, e))
  work-exited exited p e = refl
