-- ===== src/Common/Texts.antt =====
-- Texts: the template `${s}${t}`, the length of a JavaScript string, and the methods of
-- String.prototype that the code calls.
use Prim.Native.Nat.{ℕ, ◌+◌, ◌-◌}
use Prim.Native.Char.{Char, code}
use Prim.Native.String.{String}
use mathlib.Core.Bool.{Bool, true, false, ◌&&◌, ◌||◌}
use mathlib.Core.Option.{Option, none, some}
use mathlib.Core.List.{List, [], ◌∷◌}
use text.Mathlib.Text.{find?}
use extension_jobs.Common.Tests.{ltb, leb, ◌==◌, is_some, if◌then◌else◌}

infixr 20 ◌<>◌
abbrev pub ◌<>◌ : String → String → String
String.[] <> t = t
(String.◌∷◌ c s) <> t = String.◌∷◌ c (s <> t)

-- The numbers of the characters.
abbrev pub codes : String → List ℕ
codes String.[] = []
codes (String.◌∷◌ c s) = code c ∷ codes s

-- \d
abbrev pub is_digit : ℕ → Bool
is_digit c = leb b'0' c && leb c b'9'

-- `s.length`: the UTF-16 code units.
abbrev pub units : String → ℕ
units String.[] = 0
units (String.◌∷◌ c s) = let rest = units s in if ltb (code c) 65536 then 1 + rest else 2 + rest

-- The white space and the line ends of ECMAScript, which `trim` and `\s` take.
abbrev pub is_space : ℕ → Bool
is_space c =
    (leb 9 c && leb c 13)
    || c == 32
    || c == 160
    || c == 5760
    || (leb 8192 c && leb c 8202)
    || c == 8232
    || c == 8233
    || c == 8239
    || c == 8287
    || c == 12288
    || c == 65279

-- `!s.trim()`
abbrev pub is_blank : String → Bool
is_blank String.[] = true
is_blank (String.◌∷◌ c s) = is_space (code c) && is_blank s

abbrev pub trim_end : String → String
trim_end String.[] = String.[]
trim_end (String.◌∷◌ c s) =
    let rest = trim_end s in
    if is_space (code c) && is_blank s then String.[] else String.◌∷◌ c rest

abbrev pub trim_start : String → String
trim_start String.[] = String.[]
trim_start (String.◌∷◌ c s) =
    let rest = trim_start s in if is_space (code c) then rest else String.◌∷◌ c s

-- `s.trim()`
abbrev pub trim : String → String
trim s = trim_start (trim_end s)

-- `s.includes(t)`
abbrev pub contains : String → String → Bool
contains s t = is_some (find? s t)

abbrev pub is_empty : String → Bool
is_empty String.[] = true
is_empty (String.◌∷◌ _ _) = false

abbrev with_first : Char → List String → List String
with_first c [] = String.◌∷◌ c String.[] ∷ []
with_first c (s ∷ ss) = String.◌∷◌ c s ∷ ss

-- `s.split(c)` at one character
abbrev pub split : ℕ → String → List String
split sep String.[] = String.[] ∷ []
split sep (String.◌∷◌ c s) =
    let rest = split sep s in if code c == sep then String.[] ∷ rest else with_first c rest

-- `ss.join(sep)`
abbrev pub join : String → List String → String
join sep [] = String.[]
join sep (s ∷ []) = s
join sep (s ∷ t ∷ ss) = s <> sep <> join sep (t ∷ ss)

-- The characters that a replacement by '' leaves.
abbrev pub keep_chars : (ℕ → Bool) → String → String
keep_chars p String.[] = String.[]
keep_chars p (String.◌∷◌ c s) =
    let rest = keep_chars p s in if p (code c) then String.◌∷◌ c rest else rest

-- `s.slice(0, n)` on code units; a pair of surrogates is not cut.
abbrev pub first_units : ℕ → String → String
first_units n String.[] = String.[]
first_units n (String.◌∷◌ c s) =
    let width = if ltb (code c) 65536 then 1 else 2 in
    let rest = first_units (n - width) s in if leb width n then String.◌∷◌ c rest else String.[]

-- The characters in lower case, where they are letters of ASCII.
abbrev pub lower_codes : String → List ℕ
lower_codes String.[] = []
lower_codes (String.◌∷◌ c s) =
    let rest = lower_codes s in
    (if leb b'A' (code c) && leb (code c) b'Z' then code c + 32 else code c) ∷ rest

abbrev pub codes_eq : List ℕ → List ℕ → Bool
codes_eq [] [] = true
codes_eq (c ∷ cs) (d ∷ ds) = c == d && codes_eq cs ds
codes_eq _ _ = false

-- What follows a prefix of a text.
abbrev pub after_prefix : String → String → Option String
after_prefix String.[] s = some s
after_prefix (String.◌∷◌ c p) String.[] = none
after_prefix (String.◌∷◌ c p) (String.◌∷◌ d s) =
    let rest = after_prefix p s in if code c == code d then rest else none

-- `s.startsWith(p)`
abbrev pub starts_with : String → String → Bool
starts_with s p = is_some (after_prefix p s)

-- `s.endsWith(t)`
abbrev pub ends_with : String → String → Bool
ends_with String.[] t = is_empty t
ends_with (String.◌∷◌ c s) t =
    let rest = ends_with s t in codes_eq (code c ∷ codes s) (codes t) || rest
