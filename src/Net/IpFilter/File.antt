-- ===== src/Net/IpFilter/File.antt =====
-- What a line and a whole file of `ip_filter::init` do to the blacklist.
use hpserver.Prelude.{
  ℕ, zero, suc, ◌+◌, ◌-◌, ◌%◌, ◌^◌, ◌<◌, ◌≡◌, subst, inl, inr, Bool, true, false, ◌||◌, none, some,
  List, [], ◌∷◌, ◌==◌, ltb, leb, if◌then◌else◌, arith, Bool-cases, Option, Option-cases, Bytes, ℤ,
  pos, negsuc, take, drop, bit_and, ◌++◌,
}
use hpserver.Text.{find, stoi}
use hpserver.Net.IpFilter.{
  IpFilter, add_ip, is_blocked, add_ips, add_range, add_single, add_cidr, skips_line, add_lines,
  init, mask_bits,
}
use hpserver.Net.IpFilter.Laws.{IsValid, add_ip-IsValid, is_blocked-add_ip}

-- The filter stays valid, and no address that was blocked is let in.
pub record Grows (f g : IpFilter) : Type 0 where
  pub valid : IsValid f → IsValid g
  pub keeps : (j : ℕ) → j < 2 ^ 32 → IsValid f → is_blocked f j ≡ true → is_blocked g j ≡ true

Grows-refl : (f : IpFilter) → Grows f f
Grows-refl f = record { valid = λ v. v; keeps = λ j h v b. b }

Grows-trans : {f g h : IpFilter} → Grows f g → Grows g h → Grows f h
Grows-trans a b = record {
  valid = λ v. b.valid (a.valid v);
  keeps = λ j lt v e. b.keeps j lt (a.valid v) (a.keeps j lt v e);
}

add_ip-Grows : (f : IpFilter) (ip : ℕ) → ip < 2 ^ 32 → Grows f (add_ip f ip)
add_ip-Grows f ip h = record {
  valid = add_ip-IsValid f ip h;
  keeps = λ j lt v e. ground (arith, is_blocked-add_ip f ip j h lt v);
}

add_ips-Grows : (n base i : ℕ) (f : IpFilter) → Grows f (add_ips n base i f)
unfolding add_ips
add_ips-Grows zero base i f = Grows-refl f
add_ips-Grows (suc n) base i f =
    Grows-trans (add_ip-Grows f ((base + i) % 2 ^ 32) (omega arith))
      (add_ips-Grows n base (i + 1) (add_ip f ((base + i) % 2 ^ 32)))

-- The branches of an `if` share what both have.
if-Grows : (b : Bool) (f g h : IpFilter) → Grows f g → Grows f h → Grows f (if b then g else h)
if-Grows true f g h p q = p
if-Grows false f g h p q = q

add_range-Grows : (f : IpFilter) (ip : ℕ) (mask : ℤ) → ip < 2 ^ 32 → Grows f (add_range f ip mask)
unfolding add_range
add_range-Grows f ip (negsuc m) h = Grows-refl f
add_range-Grows f ip (pos m) h =
    let range = add_ips (2 ^ (32 - m)) (bit_and ip (mask_bits (32 - m))) 0 f in
    if-Grows (m == 0 || ltb 32 m) f f (if leb 24 m then range else add_ip f ip) (Grows-refl f) (
      if-Grows (leb 24 m) f range (add_ip f ip)
        (add_ips-Grows (2 ^ (32 - m)) (bit_and ip (mask_bits (32 - m))) 0 f) (add_ip-Grows f ip h))

-- The path that `init` keeps has no part in the answers.
named : (f : IpFilter) (path : Bytes) → Grows f (record f { ip_list_path = path })
unfolding is_blocked
named f path = record {
  valid = λ v. record { sized = v.sized; covered = v.covered };
  keeps = λ j lt v e. e;
}

module _ (pton : Bytes → Option ℕ)
    (in_32_bits : (text : Bytes) (ip : ℕ) → pton text ≡ some ip → ip < 2 ^ 32) where
  add_single-Grows : (f : IpFilter) (cidr : Bytes) → Grows f (add_single pton f cidr)
  unfolding add_single
  add_single-Grows f cidr = elim (Option-cases (pton cidr)) [
    | inl e ↦ rw (e, add_single) (Grows-refl f)
    | inr (ip, e) ↦ rw (e, add_single) (add_ip-Grows f ip (in_32_bits cidr ip e))
  ]

  add_cidr-Grows : (f g : IpFilter) (cidr : Bytes) → add_cidr pton f cidr ≡ some g → Grows f g
  unfolding add_cidr
  add_cidr-Grows f g cidr h = elim (Option-cases (find b'/' cidr)) [
    | inl e ↦
        subst (Grows f) (let same : add_single pton f cidr ≡ g = ground (arith, e) in same)
          (add_single-Grows f cidr)
    | inr (slash, e) ↦ elim (Option-cases (stoi (drop (slash + 1) cidr))) [
      | inl none_mask ↦ absurd (ground (arith, e, none_mask))
      | inr (mask, em) ↦ elim (Option-cases (pton (take slash cidr))) [
        | inl no_ip ↦
            subst (Grows f) (let same : f ≡ g = ground (arith, e, em, no_ip) in same) (Grows-refl f)
        | inr (ip, ei) ↦
            subst (Grows f) (let same : add_range f ip mask ≡ g = ground (arith, e, em, ei) in same)
              (add_range-Grows f ip mask (in_32_bits (take slash cidr) ip ei))
      ]
    ]
  ]

  -- However a file is made up, what was blocked stays blocked, and the filter stays valid.
  pub add_lines-Grows :
      (f g : IpFilter) (lines : List Bytes) → add_lines pton f lines ≡ some g → Grows f g
  unfolding add_lines
  add_lines-Grows f g [] h =
      subst (Grows f) (let same : f ≡ g = ground arith in same) (Grows-refl f)
  add_lines-Grows f g (line ∷ lines) h = elim (Bool-cases (skips_line pton line)) [
    | inl e ↦ add_lines-Grows f g lines (ground (arith, e))
    | inr e ↦ elim (Option-cases (add_cidr pton f line)) [
      | inl bad ↦ absurd (ground (arith, e, bad))
      | inr (m, em) ↦
          Grows-trans (add_cidr-Grows f m line em)
            (add_lines-Grows m g lines (ground (arith, e, em)))
    ]
  ]

  -- `init` only records the path besides.
  pub init-Grows :
      (f g : IpFilter) (path : Bytes) (file : Bytes → Option (List Bytes))
      → init pton f path file ≡ some g
      → Grows f g
  unfolding init
  init-Grows f g [] file h =
      subst (Grows f) (let same : f ≡ g = ground arith in same) (Grows-refl f)
  init-Grows f g (c ∷ path) file h = elim (Option-cases (file (c ∷ path))) [
    | inl e ↦
        subst (Grows f)
          (let same : record f { ip_list_path = c ∷ path } ≡ g = ground (arith, e) in same)
          (named f (c ∷ path))
    | inr (lines, e) ↦
        Grows-trans (named f (c ∷ path))
          (add_lines-Grows (record f { ip_list_path = c ∷ path }) g lines (ground (arith, e)))
  ]

  -- Where `inet_pton` gives 32-bit addresses and the filter is valid, a file that `init` reads to
  -- the end leaves every 32-bit address blocked that was blocked before, and the filter valid.
  init_keeps :
      (f g : IpFilter) (path : Bytes) (file : Bytes → Option (List Bytes)) (j : ℕ)
      → init pton f path file ≡ some g
      → IsValid f
      → j < 2 ^ 32
      → is_blocked f j ≡ true
      → (is_blocked g j ≡ true) × IsValid g
  init_keeps f g path file j h v small blocked =
      let grows = init-Grows f g path file h in (grows.keeps j small v blocked, grows.valid v)

  -- Where `inet_pton` gives 32-bit addresses and the filter is valid, a line that is no comment and
  -- holds a plain address blocks it, wherever it stands among lines that are read to the end.
  pub add_lines-blocks :
      (f g : IpFilter) (before : List Bytes) (line : Bytes) (after : List Bytes) (ip : ℕ)
      → skips_line pton line ≡ false
      → find b'/' line ≡ none
      → pton line ≡ some ip
      → IsValid f
      → add_lines pton f (before ++ line ∷ after) ≡ some g
      → is_blocked g ip ≡ true
  unfolding add_lines add_cidr
  add_lines-blocks f g [] line after ip shown plain e v h =
      let added : add_cidr pton f line ≡ some (add_ip f ip) = ground (arith, plain, e) in
      let rest : add_lines pton (add_ip f ip) after ≡ some g = ground (arith, shown, added) in
      let small : ip < 2 ^ 32 = in_32_bits line ip e in
      let now : is_blocked (add_ip f ip) ip ≡ true =
        ground (arith, is_blocked-add_ip f ip ip small small v) in
      (add_lines-Grows (add_ip f ip) g after rest).keeps ip small (add_ip-IsValid f ip small v) now
  add_lines-blocks f g (x ∷ before) line after ip shown plain e v h =
      elim (Bool-cases (skips_line pton x)) [
        | inl s ↦ add_lines-blocks f g before line after ip shown plain e v (ground (arith, s))
        | inr s ↦ elim (Option-cases (add_cidr pton f x)) [
          | inl bad ↦ absurd (ground (arith, s, bad))
          | inr (m, em) ↦
              add_lines-blocks m g before line after ip shown plain e
                ((add_cidr-Grows f m x em).valid v) (ground (arith, s, em))
        ]
      ]

-- A CIDR line whose mask is no number in the range of `int` makes the reading of the file throw,
-- whatever stands before and after it.
add_lines-throws :
    (pton : Bytes → Option ℕ) (f : IpFilter) (before : List Bytes) (line : Bytes)
    (after : List Bytes) (slash : ℕ)
    → skips_line pton line ≡ false
    → find b'/' line ≡ some slash
    → stoi (drop (slash + 1) line) ≡ none
    → add_lines pton f (before ++ line ∷ after) ≡ none
unfolding add_lines
add_lines-throws pton f [] line after slash shown cidr bad =
    let thrown : add_cidr pton f line ≡ none = unfold add_cidr in ground (arith, cidr, bad) in
    ground (arith, shown, thrown)
add_lines-throws pton f (x ∷ before) line after slash shown cidr bad =
    elim (Bool-cases (skips_line pton x)) [
      | inl s ↦ ground (arith, s, add_lines-throws pton f before line after slash shown cidr bad)
      | inr s ↦ elim (Option-cases (add_cidr pton f x)) [
        | inl t ↦ ground (arith, s, t)
        | inr (m, em) ↦
            ground (arith, s, em, add_lines-throws pton m before line after slash shown cidr bad)
      ]
    ]
