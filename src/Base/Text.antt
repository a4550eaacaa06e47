-- ===== src/Base/Text.antt =====
-- Python's texts: decimal printing, slices, prefixes, truth of texts.
use Prim.Native.Nat.{ℕ, zero, suc, ◌/◌, ◌%◌, ◌-◌}
use Prim.Native.Char.{Char, code}
use Prim.Native.String
use Prim.Native.String.{String}
use mathlib.Core.Bool.{Bool, true, false, not, ◌&&◌, ◌||◌}
use mathlib.Core.List.{List, [], ◌∷◌}
use mathlib.Core.Option.{Option, none, some}
use intelli_attend_smart_boa.Base.Tests.{ltb, ◌==◌, same, if◌then◌else◌}

-- `a + b` on texts, and the pieces of an f-string.
infixr 66 ◌^^◌
abbrev pub ◌^^◌ : String → String → String
a ^^ b = String.◌++◌ a b

digit : ℕ → String
digit zero = "0"
digit (suc zero) = "1"
digit (suc (suc zero)) = "2"
digit (suc (suc (suc zero))) = "3"
digit (suc (suc (suc (suc zero)))) = "4"
digit (suc (suc (suc (suc (suc zero))))) = "5"
digit (suc (suc (suc (suc (suc (suc zero)))))) = "6"
digit (suc (suc (suc (suc (suc (suc (suc zero))))))) = "7"
digit (suc (suc (suc (suc (suc (suc (suc (suc zero)))))))) = "8"
digit _ = "9"

-- Twenty decimal digits are enough for every number below 10 ^ 20.
str_from : ℕ → ℕ → String → String
str_from zero n acc = acc
str_from (suc fuel) n acc =
    let rest = str_from fuel (n / 10) (digit (n % 10) ^^ acc) in
    if ltb n 10 then digit n ^^ acc else rest

-- `str(n)`
unfoldable pub str : ℕ → String
unfolding digit str_from
str n = str_from 20 n ""

-- `s[:n]`
unfoldable pub slice_to : ℕ → String → String
slice_to zero s = ""
slice_to (suc n) String.[] = ""
slice_to (suc n) (String.◌∷◌ c s) = String.◌∷◌ c (slice_to n s)

-- `bool(s)`
abbrev pub truthy : String → Bool
truthy s = not (same s "")

-- `a or b`, where `a` may be `None` or empty.
abbrev pub or_else : Option String → String → String
or_else none b = b
or_else (some a) b = if truthy a then a else b

-- `s.startswith(prefix)`
unfoldable pub starts_with : String → String → Bool
starts_with s String.[] = true
starts_with String.[] (String.◌∷◌ c p) = false
starts_with (String.◌∷◌ d s) (String.◌∷◌ c p) = code d == code c && starts_with s p

push_head : Char → List String → List String
push_head c [] = String.◌∷◌ c "" ∷ []
push_head c (w ∷ ws) = String.◌∷◌ c w ∷ ws

-- `s.split(sep)` for a separator of one character.
unfoldable pub split : ℕ → String → List String
unfolding push_head
split sep String.[] = "" ∷ []
split sep (String.◌∷◌ c s) =
    let rest = split sep s in if code c == sep then "" ∷ rest else push_head c rest

-- `parts[1]`
abbrev pub second : List String → Option String
second [] = none
second (a ∷ []) = none
second (a ∷ b ∷ rest) = some b

-- `s.endswith(suffix)`
unfoldable pub ends_with : String → String → Bool
ends_with String.[] suffix = same String.[] suffix
ends_with (String.◌∷◌ c s) suffix = same (String.◌∷◌ c s) suffix || ends_with s suffix

-- The text behind `skip` characters without the occurrences of a needle.
without_from : String → ℕ → String → String
without_from needle skip String.[] = ""
without_from needle (suc skip) (String.◌∷◌ c s) = without_from needle skip s
without_from needle zero (String.◌∷◌ c s) =
    let shorter = without_from needle (String.count needle - 1) s in
    let longer = without_from needle zero s in
    if starts_with (String.◌∷◌ c s) needle then shorter else String.◌∷◌ c longer

-- `s.replace(needle, "")`
unfoldable pub without : String → String → String
unfolding without_from
without needle s = without_from needle 0 s
