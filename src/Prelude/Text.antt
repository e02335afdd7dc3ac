-- ===== src/Prelude/Text.antt =====
-- Text: template strings, decimal numbers, blank texts.
use Prim.Native.Nat.{ℕ, zero, suc, ◌/◌, ◌%◌, ◌+◌, ◌-◌}
use Prim.Native.Char.{code}
use Prim.Native.String.{String, ◌++◌ as text_append}
use mathlib.Core.Path.{◌≡◌}
use native.Mathlib.Omega.{arith}
use text.Mathlib.Text.{find?}
use text.Mathlib.TextLemmas.{nil-append, cons-append}
use mathlib.Core.Bool.{Bool, true, false, ◌&&◌, ◌||◌}
use mathlib.Core.List.{List, [], ◌∷◌}
use knowbalance.Prelude.Lists.{length}
use knowbalance.Prelude.Tests.{ltb, leb, nat_eq, if◌then◌else◌, is_some}

-- A template string, and `xs.join("")`.
unfoldable pub concat : List String → String
concat [] = ""
concat (s ∷ ss) = text_append s (concat ss)

-- `xs.join(sep)`
unfoldable pub join : String → List String → String
join sep [] = ""
join sep (s ∷ []) = s
join sep (s ∷ t ∷ ss) = text_append s (text_append sep (join sep (t ∷ ss)))

digit : ℕ → String
digit zero = "0"
digit (suc zero) = "1"
digit (suc (suc zero)) = "2"
digit (suc (suc (suc zero))) = "3"
digit (suc (suc (suc (suc zero)))) = "4"
digit (suc (suc (suc (suc (suc zero))))) = "5"
digit (suc (suc (suc (suc (suc (suc zero)))))) = "6"
digit (suc (suc (suc (suc (suc (suc (suc zero))))))) = "7"
digit (suc (suc (suc (suc (suc (suc (suc (suc zero)))))))) = "8"
digit _ = "9"

show_digits : ℕ → ℕ → String
unfolding digit
show_digits zero n = ""
show_digits (suc fuel) n =
    let more = text_append (show_digits fuel (n / 10)) (digit (n % 10)) in
    if ltb n 10 then digit n else more

-- A natural number in a template string; it has at most n + 1 digits.
unfoldable pub show_nat : ℕ → String
unfolding show_digits
show_nat n = show_digits (suc n) n

-- `text.includes(part)`
abbrev pub contains_text : String → String → Bool
contains_text text part = is_some (find? text part)

-- The white space and line terminators that `trim` removes.
abbrev pub is_space : ℕ → Bool
is_space c =
    leb 9 c && leb c 13
    || nat_eq c 32
    || nat_eq c 160
    || nat_eq c 0x1680
    || leb 0x2000 c && leb c 0x200a
    || nat_eq c 0x2028
    || nat_eq c 0x2029
    || nat_eq c 0x202f
    || nat_eq c 0x205f
    || nat_eq c 0x3000
    || nat_eq c 0xfeff

-- `s.trim().length === 0`
abbrev pub is_blank : String → Bool
is_blank String.[] = true
is_blank (String.◌∷◌ c s) = is_space (code c) && is_blank s

-- `text.replace` of every character of a class by nothing.
abbrev pub remove_chars : (ℕ → Bool) → String → String
remove_chars p String.[] = String.[]
remove_chars p (String.◌∷◌ c s) =
    let rest = remove_chars p s in if p (code c) then rest else String.◌∷◌ c rest

-- `/^[...]*$/.test(text)` for a class of characters.
abbrev pub all_chars : (ℕ → Bool) → String → Bool
all_chars p String.[] = true
all_chars p (String.◌∷◌ c s) = p (code c) && all_chars p s

-- The UTF-16 code units of a text; a code point above 0xffff is a surrogate pair.
abbrev pub code_units : String → List ℕ
code_units String.[] = []
code_units (String.◌∷◌ c s) =
    if ltb (code c) 0x10000
    then code c ∷ code_units s
    else (0xd800 + (code c - 0x10000) / 0x400)
      ∷ (0xdc00 + (code c - 0x10000) % 0x400)
      ∷ code_units s

-- `text.length`
abbrev pub text_length : String → ℕ
text_length s = length (code_units s)

-- The lexicographic order of code units, by which `sort()` orders strings.
abbrev pub units_le : List ℕ → List ℕ → Bool
units_le [] ys = true
units_le (x ∷ xs) [] = false
units_le (x ∷ xs) (y ∷ ys) = ltb x y || nat_eq x y && units_le xs ys

abbrev pub text_le : String → String → Bool
text_le s t = units_le (code_units s) (code_units t)

is_blank-text_append : (s t : String) → is_blank (text_append s t) ≡ (is_blank s && is_blank t)
is_blank-text_append String.[] t = rw (nil-append t)
is_blank-text_append (String.◌∷◌ c s) t =
    rw (cons-append c s t) (ground (arith, is_blank-text_append s t))

pub is_blank-concat :
    (s : String) (ss : List String)
    → is_blank (concat (s ∷ ss)) ≡ (is_blank s && is_blank (concat ss))
unfolding concat
is_blank-concat s ss = is_blank-text_append s (concat ss)
