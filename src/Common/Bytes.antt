-- ===== src/Common/Bytes.antt =====
-- Byte strings and their equality, as that of Go's strings and map keys.
use Prim.Native.Nat.{ℕ}
use mathlib.Core.Path.{◌≡◌, refl}
use mathlib.Core.Logic.{◌↔◌}
use mathlib.Core.Bool.{Bool, true, false}
use mathlib.Core.List.{List, [], ◌∷◌}
use native.Mathlib.Omega.{arith}
use clickhouse_go.Common.Tests.{if◌then◌else◌, ◌==◌}

abbrev pub Bytes : Type 0
Bytes = List ℕ

abbrev pub same_bytes : Bytes → Bytes → Bool
same_bytes [] [] = true
same_bytes [] (c ∷ cs) = false
same_bytes (c ∷ cs) [] = false
same_bytes (c ∷ cs) (d ∷ ds) = if c == d then same_bytes cs ds else false

pub same_bytes_iff : (x y : Bytes) → (same_bytes x y ≡ true) ↔ (x ≡ y)
same_bytes_iff [] [] = (λ h. refl, λ h. refl)
same_bytes_iff [] (c ∷ cs) = (λ h. absurd (ground (arith, h)), λ h. absurd (ground (arith, h)))
same_bytes_iff (c ∷ cs) [] = (λ h. absurd (ground (arith, h)), λ h. absurd (ground (arith, h)))
same_bytes_iff (c ∷ cs) (d ∷ ds) =
    let ih = same_bytes_iff cs ds in (λ h. ground (arith, h, ih), λ h. ground (arith, h, ih))
