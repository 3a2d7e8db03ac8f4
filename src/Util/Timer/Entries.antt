-- ===== src/Util/Timer/Entries.antt =====
-- The map of entries.
use hpserver.Prelude.{
  ℕ, ◌≡◌, ◌∙◌, refl, sym, ap, arith, ◌==◌, ==_iff, none, some, List, [], ◌∷◌, if◌then◌else◌,
  Bool-cases, inl, inr,
}
use hpserver.Util.Timer.{Entry, find, erase, assign}

module _ {C : Type 0} where
  -- A key stands once.
  abbrev pub Distinct : List (ℕ × Entry C) → Type 0
  Distinct [] = Unit
  Distinct ((j, e) ∷ entries) = (find j entries ≡ none) × Distinct entries

  pub find-assign :
      (id j : ℕ) (e : Entry C) (entries : List (ℕ × Entry C))
      → find j (assign id e entries) ≡ (if id == j then some e else find j entries)
  unfolding find assign
  find-assign id j e [] = refl
  find-assign id j e ((i, f) ∷ entries) =
      ground (arith, ==_iff id j, ==_iff i id, ==_iff i j, find-assign id j e entries)

  pub find-erase :
      (id j : ℕ) (entries : List (ℕ × Entry C))
      → Distinct entries
      → find j (erase id entries) ≡ (if id == j then none else find j entries)
  unfolding find erase
  find-erase id j [] d = ground arith
  find-erase id j ((i, f) ∷ entries) d = ground (
    arith,
    ==_iff id j,
    ==_iff i id,
    ==_iff i j,
    find-erase id j entries d.1,
    d.0,
    ap (λ k. find k entries),
  )

  pub assign-Distinct :
      (id : ℕ) (e : Entry C) (entries : List (ℕ × Entry C))
      → Distinct entries
      → Distinct (assign id e entries)
  unfolding assign find
  assign-Distinct id e [] d = (refl, tt)
  assign-Distinct id e ((i, f) ∷ entries) d = elim (Bool-cases (i == id)) [
    | inl h ↦ rw h (ap (λ k. find k entries) (sym ((==_iff i id).0 h)) ∙ d.0, d.1)
    | inr h ↦
        rw h (find-assign id i e entries ∙ ground (arith, d.0), assign-Distinct id e entries d.1)
  ]

  pub erase-Distinct :
      (id : ℕ) (entries : List (ℕ × Entry C)) → Distinct entries → Distinct (erase id entries)
  unfolding erase
  erase-Distinct id [] d = tt
  erase-Distinct id ((i, f) ∷ entries) d = elim (Bool-cases (i == id)) [
    | inl h ↦ rw h d.1
    | inr h ↦
        rw h (find-erase id i entries d.1 ∙ ground (arith, d.0), erase-Distinct id entries d.1)
  ]
