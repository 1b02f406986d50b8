-- ===== src/Prelude/Text.antt =====
-- C strings as lists of bytes without their final zero.
use Prim.Native.Nat.{ℕ, zero, suc, ◌+◌, ◌/◌, ◌%◌}
use Prim.Native.Char.{code}
use Prim.Native.String.{String}
use mathlib.Core.Bool.{Bool, true, false, ◌&&◌}
use mathlib.Core.List.{List, [], ◌∷◌, ◌++◌}
use luna_os_arm.Prelude.Tests.{◌==◌, if◌then◌else◌}

-- The bytes of an ASCII literal.
abbrev pub codes : String → List ℕ
codes String.[] = []
codes (String.◌∷◌ c s) = code c ∷ codes s

-- A write of `new` over the first bytes of an array.
abbrev pub overwrite : List ℕ → List ℕ → List ℕ
overwrite new [] = []
overwrite [] (b ∷ old) = b ∷ old
overwrite (n ∷ new) (b ∷ old) = n ∷ overwrite new old

-- `strncmp(s, prefix, strlen(prefix)) == 0`
abbrev pub starts_with : List ℕ → List ℕ → Bool
starts_with [] s = true
starts_with (p ∷ ps) [] = false
starts_with (p ∷ ps) (c ∷ cs) = (p == c) && starts_with ps cs

-- `strcmp(s, t) == 0`
abbrev pub str_eq : List ℕ → List ℕ → Bool
str_eq [] [] = true
str_eq [] (t ∷ ts) = false
str_eq (s ∷ ss) [] = false
str_eq (s ∷ ss) (t ∷ ts) = (s == t) && str_eq ss ts

-- `%u` of snprintf, with room for `fuel` digits.
unfoldable pub decimal : ℕ → ℕ → List ℕ
decimal zero n = []
decimal (suc fuel) n =
    let more = decimal fuel (n / 10) in (if n / 10 == 0 then [] else more) ++ ((48 + n % 10) ∷ [])
