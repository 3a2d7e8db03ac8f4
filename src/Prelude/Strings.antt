-- ===== src/Prelude/Strings.antt =====
-- Text as the list of its bytes (`std::string` and `std::string_view`), and equality of keys.
use Prim.Native.Nat.{ℕ}
use Prim.Native.Char.{code}
use Prim.Native.String.{String}
use mathlib.Core.Path.{◌≡◌, refl}
use mathlib.Core.Logic.{◌↔◌}
use mathlib.Core.Bool.{Bool, true, false, ◌&&◌}
use mathlib.Core.List.{List, [], ◌∷◌}
use native.Mathlib.Omega.{arith}
use hpserver.Prelude.Tests.{◌==◌, ==_iff}

abbrev pub Bytes : Type 0
Bytes = List ℕ

-- The bytes of a literal of the source.
abbrev pub codes : String → Bytes
codes String.[] = []
codes (String.◌∷◌ c s) = code c ∷ codes s

-- `operator==` of strings.
infix 50 ◌=?◌
unfoldable pub ◌=?◌ : Bytes → Bytes → Bool
[] =? [] = true
[] =? (y ∷ ys) = false
(x ∷ xs) =? [] = false
(x ∷ xs) =? (y ∷ ys) = (x == y) && (xs =? ys)

pub =?_iff : (xs ys : Bytes) → ((xs =? ys) ≡ true) ↔ (xs ≡ ys)
unfolding ◌=?◌
=?_iff [] [] = (λ _. refl, λ _. refl)
=?_iff [] (y ∷ ys) = (λ h. cc, λ h. cc)
=?_iff (x ∷ xs) [] = (λ h. cc, λ h. cc)
=?_iff (x ∷ xs) (y ∷ ys) = ground (arith, =?_iff xs ys)

-- Equality of the keys of a container, as an interface.
pub record Eq {ℓ} (A : Type ℓ) : Type ℓ where
  pub beq : A → A → Bool
  pub beq_iff : (a b : A) → (beq a b ≡ true) ↔ (a ≡ b)

instance abbrev pub bytes_eq : Eq Bytes
bytes_eq = record { beq = ◌=?◌; beq_iff = =?_iff }

instance abbrev pub nat_eq : Eq ℕ
nat_eq = record { beq = ◌==◌; beq_iff = ==_iff }
