-- ===== src/Base/Integers.antt =====
-- Signed integers over the native numbers with their order, and the bytes of literal texts.
use Prim.Native.Nat.{ℕ, compare, Ordering}
use Prim.Native.Nat.Ordering.{lt, gt}
use Prim.Native.Char.{code}
use Prim.Native.String.{String}
use mathlib.Core.List.{List, [], ◌∷◌}

pub data ℤ : Type 0 where
  pos negsuc : ℕ → ℤ

abbrev pub cmp_int : ℤ → ℤ → Ordering
cmp_int (pos a) (pos b) = compare a b
cmp_int (pos a) (negsuc b) = gt
cmp_int (negsuc a) (pos b) = lt
cmp_int (negsuc a) (negsuc b) = compare b a

-- The bytes of a text in ASCII.
abbrev pub ascii : String → List ℕ
ascii String.[] = []
ascii (String.◌∷◌ c s) = code c ∷ ascii s
