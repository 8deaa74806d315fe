-- ===== src/Prelude/Text.antt =====
-- Python's `str` as the native text: `strip`, truth, `in` and `[:n]`.
use Prim.Native.Nat.{ℕ, zero, suc}
use Prim.Native.Char.{Char, code}
use Prim.Native.String.{String}
use mathlib.Core.List.{List, [], ◌∷◌}
use mathlib.Core.Logic.{◌⊎◌, inl, inr}
use mathlib.Core.Path.{◌≡◌, refl}
use native.Mathlib.Omega.{arith}
use mathlib.Core.Bool.{Bool, true, false, ◌&&◌, ◌||◌}
use prefeitura_anti_hack.Prelude.Tests.{Bool-cases, and_split, leb, ◌==◌, if◌then◌else◌}

-- str.isspace of one character: the code points that CPython's `strip` removes.
unfoldable pub is_space : Char → Bool
is_space ch =
    let c = code ch in
    (leb 9 c && leb c 13)
    || (leb 28 c && leb c 32)
    || c == 0x85
    || c == 0xa0
    || c == 0x1680
    || (leb 0x2000 c && leb c 0x200a)
    || c == 0x2028
    || c == 0x2029
    || c == 0x202f
    || c == 0x205f
    || c == 0x3000

-- `not s`
abbrev pub is_empty : String → Bool
is_empty String.[] = true
is_empty (String.◌∷◌ c s) = false

unfoldable pub lstrip : String → String
lstrip String.[] = String.[]
lstrip (String.◌∷◌ c s) = let rest = lstrip s in if is_space c then rest else String.◌∷◌ c s

unfoldable pub rstrip : String → String
rstrip String.[] = String.[]
rstrip (String.◌∷◌ c s) =
    let rest = rstrip s in if is_empty rest && is_space c then String.[] else String.◌∷◌ c rest

-- s.strip()
unfoldable pub strip : String → String
unfolding lstrip rstrip is_space
strip s = rstrip (lstrip s)

-- `not s or not s.strip()`
unfoldable pub is_blank : String → Bool
unfolding strip
is_blank s = is_empty s || is_empty (strip s)

char_eq : Char → Char → Bool
char_eq a b = code a == code b

-- s.startswith(p)
unfoldable pub has_prefix : String → String → Bool
unfolding char_eq
has_prefix String.[] s = true
has_prefix (String.◌∷◌ p ps) String.[] = false
has_prefix (String.◌∷◌ p ps) (String.◌∷◌ c s) = char_eq p c && has_prefix ps s

-- `p in s`
unfoldable pub contains : String → String → Bool
unfolding has_prefix
contains p String.[] = has_prefix p String.[]
contains p (String.◌∷◌ c s) = has_prefix p (String.◌∷◌ c s) || contains p s

-- s[:n]
unfoldable pub prefix : ℕ → String → String
prefix zero s = String.[]
prefix (suc n) String.[] = String.[]
prefix (suc n) (String.◌∷◌ c s) = String.◌∷◌ c (prefix n s)

-- len(s)
abbrev pub length : String → ℕ
length String.[] = 0
length (String.◌∷◌ c s) = suc (length s)

unfoldable pub append : String → String → String
append String.[] t = t
append (String.◌∷◌ c s) t = String.◌∷◌ c (append s t)

-- An f-string, from its parts.
unfoldable pub fstring : List String → String
unfolding append
fstring [] = String.[]
fstring (s ∷ ss) = append s (fstring ss)

-- Some character of the text is no whitespace.
abbrev pub HasInk : String → Type 0
HasInk String.[] = ⊥
HasInk (String.◌∷◌ c s) = (is_space c ≡ false) ⊎ HasInk s

HasInk-lstrip : (s : String) → HasInk s → HasInk (lstrip s)
unfolding lstrip
HasInk-lstrip String.[] h = h
HasInk-lstrip (String.◌∷◌ c s) (inl p) = rw p (inl p)
HasInk-lstrip (String.◌∷◌ c s) (inr h) = elim (Bool-cases (is_space c)) [
  | inl p ↦ rw p (HasInk-lstrip s h)
  | inr p ↦ rw p (inr h)
]

rstrip_not_empty : (s : String) → HasInk s → is_empty (rstrip s) ≡ false
unfolding rstrip
rstrip_not_empty String.[] h = absurd h
rstrip_not_empty (String.◌∷◌ c s) (inl p) = ground (arith, p)
rstrip_not_empty (String.◌∷◌ c s) (inr h) = ground (arith, rstrip_not_empty s h)

not_empty : (s : String) → HasInk s → is_empty s ≡ false
not_empty String.[] h = absurd h
not_empty (String.◌∷◌ c s) h = refl

-- A text with ink is not blank.
pub HasInk-is_blank : (s : String) → HasInk s → is_blank s ≡ false
unfolding is_blank
HasInk-is_blank s h = rw (not_empty s h) (rstrip_not_empty (lstrip s) (HasInk-lstrip s h))

pub HasInk-append_left : (s t : String) → HasInk s → HasInk (append s t)
unfolding append
HasInk-append_left String.[] t h = absurd h
HasInk-append_left (String.◌∷◌ c s) t (inl p) = inl p
HasInk-append_left (String.◌∷◌ c s) t (inr h) = inr (HasInk-append_left s t h)

pub HasInk-append_right : (s t : String) → HasInk t → HasInk (append s t)
unfolding append
HasInk-append_right String.[] t h = h
HasInk-append_right (String.◌∷◌ c s) t h = inr (HasInk-append_right s t h)

contains_of_prefix : (q s : String) → has_prefix q s ≡ true → contains q s ≡ true
unfolding contains
contains_of_prefix q String.[] h = h
contains_of_prefix q (String.◌∷◌ c s) h = rw h

contains_later :
    (q s : String) (c : Char) → contains q s ≡ true → contains q (String.◌∷◌ c s) ≡ true
unfolding contains
contains_later q s c h = ground (arith, h)

contains_of_prefix_tail : (a q s : String) → has_prefix (append a q) s ≡ true → contains q s ≡ true
unfolding append has_prefix
contains_of_prefix_tail String.[] q s h = contains_of_prefix q s h
contains_of_prefix_tail (String.◌∷◌ d a) q String.[] h = absurd (ground arith)
contains_of_prefix_tail (String.◌∷◌ d a) q (String.◌∷◌ c s) h =
    contains_later q s c (contains_of_prefix_tail a q s (and_split (char_eq d c) _ h).1)

-- A text that contains `a + q` contains `q`.
pub contains_tail : (a q s : String) → contains (append a q) s ≡ true → contains q s ≡ true
unfolding contains
contains_tail a q String.[] h = contains_of_prefix_tail a q String.[] h
contains_tail a q (String.◌∷◌ c s) h =
    elim (Bool-cases (has_prefix (append a q) (String.◌∷◌ c s))) [
      | inl p ↦ contains_of_prefix_tail a q (String.◌∷◌ c s) p
      | inr p ↦ contains_later q s c (contains_tail a q s (rw p at h))
    ]

strip_test : strip " \t a b " ≡ "a b"
unfolding strip
strip_test = refl

contains_test : contains "down" "serverdown" ≡ true
unfolding contains
contains_test = refl
