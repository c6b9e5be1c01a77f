-- ===== src/Prelude/Texts.antt =====
-- Texts: whole ones by the library's comparison, and as lists of code points where a program looks
-- into them.
use Prim.Native.Char.{code}
use Prim.Native.Nat.{ℕ, ◌+◌}
use Prim.Native.String.{String}
use mathlib.Core.Bool.{Bool, true, false, ◌||◌, ◌&&◌}
use mathlib.Core.List.{List, [], ◌∷◌, reverse}
use mathlib.Core.Option.{Option, none, some}
use text.Mathlib.Text.{◌==◌ as str_eq}
use pkg_sentinel.Prelude.Tests.{if◌then◌else◌, leb, ◌==◌}

abbrev pub mem_text : String → List String → Bool
mem_text s [] = false
mem_text s (t ∷ ts) = str_eq s t || mem_text s ts

abbrev pub subset_text : List String → List String → Bool
subset_text [] ts = true
subset_text (s ∷ ss) ts = mem_text s ts && subset_text ss ts

abbrev pub is_some {ℓ} : {A : Type ℓ} → Option A → Bool
is_some none = false
is_some (some a) = true

abbrev pub is_none {ℓ} : {A : Type ℓ} → Option A → Bool
is_none none = true
is_none (some a) = false

abbrev pub codes : String → List ℕ
codes String.[] = []
codes (String.◌∷◌ c s) = code c ∷ codes s

-- An ASCII capital as its small letter.
abbrev pub lower_code : ℕ → ℕ
lower_code c = if leb b'A' c && leb c b'Z' then c + 32 else c

-- SQLite's `text LIKE 'p%'`, which does not heed the case of ASCII letters.
abbrev pub starts_like : List ℕ → List ℕ → Bool
starts_like [] text = true
starts_like (p ∷ ps) [] = false
starts_like (p ∷ ps) (c ∷ cs) = lower_code p == lower_code c && starts_like ps cs

abbrev pub lower : List ℕ → List ℕ
lower [] = []
lower (c ∷ cs) = lower_code c ∷ lower cs

-- `text.startswith(p)` and `p in text`
abbrev pub starts : List ℕ → List ℕ → Bool
starts [] text = true
starts (p ∷ ps) [] = false
starts (p ∷ ps) (c ∷ cs) = p == c && starts ps cs

abbrev pub contains : List ℕ → List ℕ → Bool
contains p [] = starts p []
contains p (c ∷ cs) = starts p (c ∷ cs) || contains p cs

abbrev pub contains_any : List String → List ℕ → Bool
contains_any [] text = false
contains_any (p ∷ ps) text = contains (codes p) text || contains_any ps text

-- `text == p`
abbrev pub same_codes : List ℕ → List ℕ → Bool
same_codes [] [] = true
same_codes [] (d ∷ ds) = false
same_codes (c ∷ cs) [] = false
same_codes (c ∷ cs) (d ∷ ds) = c == d && same_codes cs ds

-- The white space of `str.strip`, in ASCII.
abbrev pub is_space : ℕ → Bool
is_space c = c == b' ' || (leb 9 c && leb c 13) || (leb 28 c && leb c 31)

abbrev pub strip_left : List ℕ → List ℕ
strip_left [] = []
strip_left (c ∷ cs) = if is_space c then strip_left cs else c ∷ cs

abbrev pub strip : List ℕ → List ℕ
strip text = reverse (strip_left (reverse (strip_left text)))
