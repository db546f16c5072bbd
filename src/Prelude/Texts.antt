-- ===== src/Prelude/Texts.antt =====
-- What the program uses of Python's `str`. A text is the list of its code points.
use Prim.Native.Nat.{ℕ, zero, suc, ◌+◌, ◌-◌, ◌*◌, ◌/◌, ◌%◌}
use Prim.Native.Char.{code}
use Prim.Native.String.{String}
use mathlib.Core.Path.{◌≡◌, refl}
use mathlib.Core.Bool.{Bool, true, false, ◌&&◌, ◌||◌}
use mathlib.Core.Option.{Option, none, some}
use mathlib.Core.List.{List, [], ◌∷◌, ◌++◌, map}
use vpn_app_ai.Prelude.Tests.{ltb, leb, nat_beq, if◌then◌else◌}
use vpn_app_ai.Prelude.Int.{ℤ, pos, negsuc}

-- A literal's code points.
abbrev pub codes : String → List ℕ
codes String.[] = []
codes (String.◌∷◌ c rest) = code c ∷ codes rest

-- `str.isspace` of one character.
unfoldable pub is_space : ℕ → Bool
is_space c =
    (leb 9 c && leb c 13)
    || (leb 28 c && leb c 32)
    || nat_beq c 0x85
    || nat_beq c 0xa0
    || nat_beq c 0x1680
    || (leb 0x2000 c && leb c 0x200a)
    || nat_beq c 0x2028
    || nat_beq c 0x2029
    || nat_beq c 0x202f
    || nat_beq c 0x205f
    || nat_beq c 0x3000

unfoldable pub strip_left : List ℕ → List ℕ
strip_left [] = []
strip_left (c ∷ cs) = elim (is_space c) [ true ↦ strip_left cs | false ↦ c ∷ cs ]

unfoldable pub strip_right : List ℕ → List ℕ
strip_right [] = []
strip_right (c ∷ cs) = keep (is_space c) (strip_right cs)
  where
    keep : Bool → List ℕ → List ℕ
    keep true [] = []
    keep _ rest = c ∷ rest

-- `text.strip()`
abbrev pub strip : List ℕ → List ℕ
strip text = strip_right (strip_left text)

abbrev flush : List ℕ → List (List ℕ) → List (List ℕ)
flush [] ws = ws
flush (c ∷ cs) ws = (c ∷ cs) ∷ ws

-- `word` is what has been read of the word at hand.
unfoldable pub words_onto : List ℕ → List ℕ → List (List ℕ)
words_onto word [] = flush word []
words_onto word (c ∷ cs) = elim (is_space c) [
  | true ↦ flush word (words_onto [] cs)
  | false ↦ words_onto (word ++ c ∷ []) cs
]

-- `text.split()`
abbrev pub words : List ℕ → List (List ℕ)
words text = words_onto [] text

-- `text.lower()` as far as ASCII letters go.
unfoldable pub lower : List ℕ → List ℕ
lower text = map (λ c. if leb b'A' c && leb c b'Z' then c + 32 else c) text

-- Decimal digits with single underscores between them; the flag is set behind a digit.
unfoldable pub digits_onto : ℕ → Bool → List ℕ → Option ℕ
digits_onto acc false [] = none
digits_onto acc true [] = some acc
digits_onto acc after (c ∷ cs) = elim (leb b'0' c && leb c b'9') [
  | true ↦ digits_onto (acc * 10 + (c - b'0')) true cs
  | false ↦ elim (after && nat_beq c b'_') [ true ↦ digits_onto acc false cs | false ↦ none ]
]

abbrev negated : ℕ → ℤ
negated zero = pos zero
negated (suc n) = negsuc n

abbrev signed : (ℕ → ℤ) → Option ℕ → Option ℤ
signed f none = none
signed f (some n) = some (f n)

-- `int(text)`, of at most 4300 digits of ASCII; none where it raises ValueError.
unfoldable pub int_of : List ℕ → Option ℤ
unfolding digits_onto
int_of text = elim (strip text) [
  | [] ↦ none
  | c ∷ cs ↦
      if nat_beq c b'-'
      then signed negated (digits_onto 0 false cs)
      else if nat_beq c b'+'
      then signed pos (digits_onto 0 false cs)
      else signed pos (digits_onto 0 false (c ∷ cs))
]

-- The decimal digits of a number below 10 ^ (fuel + 1).
unfoldable pub show_nat : ℕ → ℕ → List ℕ
show_nat zero n = (48 + n % 10) ∷ []
show_nat (suc fuel) n =
    let front = show_nat fuel (n / 10) in
    if ltb n 10 then (48 + n) ∷ [] else front ++ (48 + n % 10) ∷ []

int_of_tests :
    (int_of (codes " 12_0\n") ≡ some (pos 120))
    × (int_of (codes "-3") ≡ some (negsuc 2))
    × (int_of (codes "1__0") ≡ none)
    × (int_of (codes "") ≡ none)
    × (words (codes " a\tbc  d ") ≡ codes "a" ∷ codes "bc" ∷ codes "d" ∷ [])
unfolding int_of digits_onto strip_left strip_right is_space words_onto
int_of_tests = (refl, refl, refl, refl, refl)
