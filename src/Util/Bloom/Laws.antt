-- ===== src/Util/Bloom/Laws.antt =====
-- A Bloom filter has no false negatives.
use hpserver.Prelude.{
  ℕ, zero, suc, ◌%◌, ◌<◌, ◌≡◌, refl, sym, ap, ◌∙◌, Bool, true, false, ◌&&◌, List, [], ◌∷◌, length,
  get_or, set, length-set, length-replicate, Bytes, arith,
}
use native.Mathlib.Nat.{mod-lt}
use hpserver.Util.Bloom.{
  Bloom, bloom_filter, compute_hashes, set_bits, all_set, add, contains, fill_false, clear, IsSized,
}

get_or-set-true :
    (bits : List Bool) (i : ℕ) → i < length bits → get_or (set bits i true) i false ≡ true
get_or-set-true [] i h = absurd (omega arith)
get_or-set-true (b ∷ bits) zero h = refl
get_or-set-true (b ∷ bits) (suc i) h = get_or-set-true bits i (omega arith)

get_or-set_keep :
    (bits : List Bool) (i j : ℕ)
    → get_or bits j false ≡ true
    → get_or (set bits i true) j false ≡ true
get_or-set_keep [] i j h = h
get_or-set_keep (b ∷ bits) zero zero h = refl
get_or-set_keep (b ∷ bits) zero (suc j) h = h
get_or-set_keep (b ∷ bits) (suc i) zero h = h
get_or-set_keep (b ∷ bits) (suc i) (suc j) h = get_or-set_keep bits i j h

length-set_bits : (bits : List Bool) (hs : List ℕ) → length (set_bits bits hs) ≡ length bits
unfolding set_bits
length-set_bits bits [] = refl
length-set_bits bits (h ∷ hs) =
    length-set_bits (set bits (h % length bits) true) hs ∙ length-set bits (h % length bits) true

set_bits-keep :
    (bits : List Bool) (hs : List ℕ) (j : ℕ)
    → get_or bits j false ≡ true
    → get_or (set_bits bits hs) j false ≡ true
unfolding set_bits
set_bits-keep bits [] j h = h
set_bits-keep bits (k ∷ hs) j h =
    set_bits-keep (set bits (k % length bits) true) hs j
      (get_or-set_keep bits (k % length bits) j h)

-- Each hash of `hs` finds its bit set in `bits`, the indices taken modulo `n`.
all_set_at : ℕ → List Bool → List ℕ → Bool
all_set_at n bits [] = true
all_set_at n bits (h ∷ hs) = get_or bits (h % n) false && all_set_at n bits hs

all_set_eq : (bits : List Bool) (hs : List ℕ) → all_set bits hs ≡ all_set_at (length bits) bits hs
unfolding all_set all_set_at
all_set_eq bits [] = refl
all_set_eq bits (h ∷ hs) = ap (◌&&◌ (get_or bits (h % length bits) false)) (all_set_eq bits hs)

all_set_at-keep :
    (n : ℕ) (bits : List Bool) (hs ks : List ℕ)
    → all_set_at n bits ks ≡ true
    → all_set_at n (set_bits bits hs) ks ≡ true
unfolding all_set_at
all_set_at-keep n bits hs [] h = refl
all_set_at-keep n bits hs (k ∷ ks) h =
    ground (arith, set_bits-keep bits hs (k % n), all_set_at-keep n bits hs ks)

all_set_at-set_bits :
    (n : ℕ) (bits : List Bool) (hs : List ℕ)
    → n ≡ length bits
    → 0 < n
    → all_set_at n (set_bits bits hs) hs ≡ true
unfolding all_set_at set_bits
all_set_at-set_bits n bits [] e p = refl
all_set_at-set_bits n bits (h ∷ hs) e p =
    let here : get_or (set bits (h % length bits) true) (h % n) false ≡ true =
      rw e (get_or-set-true bits (h % length bits) (mod-lt h (omega arith))) in
    ground (
      arith,
      set_bits-keep (set bits (h % length bits) true) hs (h % n) here,
      all_set_at-set_bits n (set bits (h % length bits) true) hs
          (e ∙ sym (length-set bits (h % length bits) true)) p,
    )

-- A text that was added to a filter with at least one bit is found.
pub contains-add_self : (f : Bloom) (text : Bytes) → IsSized f → contains (add f text) text ≡ true
unfolding contains add
contains-add_self f text p =
    rw (all_set_eq, length-set_bits)
      (all_set_at-set_bits (length f.bits) f.bits (compute_hashes text) refl p)

-- What was found before an addition is found after it.
pub contains-add :
    (f : Bloom) (text old : Bytes) → contains f old ≡ true → contains (add f text) old ≡ true
unfolding contains add
contains-add f text old h =
    rw (all_set_eq, length-set_bits)
      (all_set_at-keep (length f.bits) f.bits (compute_hashes text) (compute_hashes old)
        (rw all_set_eq at h))

pub add-IsSized : (f : Bloom) (text : Bytes) → IsSized f → IsSized (add f text)
unfolding add
add-IsSized f text p = omega (arith, length-set_bits f.bits (compute_hashes text))

pub bloom_filter-IsSized : (n : ℕ) → 0 < n → IsSized (bloom_filter n)
unfolding bloom_filter
bloom_filter-IsSized n p = omega (arith, length-replicate n false)

get_or-fill_false : (bits : List Bool) (i : ℕ) → get_or (fill_false bits) i false ≡ false
unfolding fill_false
get_or-fill_false [] i = refl
get_or-fill_false (b ∷ bits) zero = refl
get_or-fill_false (b ∷ bits) (suc i) = get_or-fill_false bits i

-- A cleared filter contains no text.
contains-clear : (f : Bloom) (text : Bytes) → contains (clear f) text ≡ false
unfolding contains clear all_set compute_hashes
contains-clear f text = rw get_or-fill_false
