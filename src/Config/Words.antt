-- ===== src/Config/Words.antt =====
-- Lines of words: what the reader of option files makes of a line that was written word by word.
use vpn_app_ai.Prelude.{
  ℕ, ◌≡◌, refl, sym, ap, ◌∙◌, false, ◌||◌, List, [], ◌∷◌, ◌++◌, append-nil, append_assoc, list_eq,
  nat_beq, nat_eq, arith, Bool-cases, some, ◌≢◌, inl, inr, ◌⊎◌,
}
use vpn_app_ai.Prelude.Int.{pos}
use vpn_app_ai.Prelude.Lists.{All}
use vpn_app_ai.Prelude.Digits.{
  IsDigit, All-weaken, value, value-show_nat, show_nat-digits, show_nat-nonempty, digits_onto-value,
}
use vpn_app_ai.Prelude.Texts.{
  show_nat, is_space, strip, strip_left, strip_right, words_onto, int_of,
}
use vpn_app_ai.Prelude.Result.{ok}
use vpn_app_ai.Crypto.Pki.{Text}
use vpn_app_ai.Config.Parse.{Kwargs, parse_words, parse_line}

-- A text without whitespace that is not empty.
abbrev pub IsWord : Text → Type 0
IsWord [] = ⊥
IsWord (c ∷ cs) = All (λ x. is_space x ≡ false) (c ∷ cs)

strip_right-word : (w : Text) → All (λ x. is_space x ≡ false) w → strip_right w ≡ w
unfolding strip_right
strip_right-word [] h = refl
strip_right-word (c ∷ cs) h = rw (h.0, strip_right-word cs h.1) refl

-- In front of a text that keeps everything, everything is kept.
strip_right-front :
    (w : Text) (c : ℕ) (v : Text)
    → strip_right (c ∷ v) ≡ c ∷ v
    → strip_right (w ++ (c ∷ v)) ≡ w ++ (c ∷ v)
unfolding strip_right
strip_right-front [] c v h = h
strip_right-front (x ∷ []) c v h = ground (arith, h, Bool-cases (is_space x))
strip_right-front (x ∷ y ∷ w) c v h =
    ground (arith, strip_right-front (y ∷ w) c v h, Bool-cases (is_space x))

strip_right-newline : (w : Text) → strip_right (w ++ b'\n' ∷ []) ≡ strip_right w
unfolding strip_right is_space
strip_right-newline [] = refl
strip_right-newline (c ∷ w) = rw (strip_right-newline w) refl

words_onto-append :
    (w cur rest : Text)
    → All (λ x. is_space x ≡ false) w
    → words_onto cur (w ++ rest) ≡ words_onto (cur ++ w) rest
unfolding words_onto
words_onto-append [] cur rest h = ap (λ (t : Text). words_onto t rest) (sym (append-nil cur))
words_onto-append (c ∷ w) cur rest h =
    rw (h.0, words_onto)
      (words_onto-append w (cur ++ c ∷ []) rest h.1
        ∙ ap (λ (t : Text). words_onto t rest) (append_assoc cur (c ∷ []) w))

flush_end : (c : ℕ) (w : Text) → words_onto (c ∷ w) [] ≡ (c ∷ w) ∷ []
unfolding words_onto
flush_end c w = refl

flush_space :
    (c : ℕ) (w rest : Text) → words_onto (c ∷ w) (32 ∷ rest) ≡ (c ∷ w) ∷ words_onto [] rest
unfolding words_onto is_space
flush_space c w rest = refl

words_onto-word :
    (c : ℕ) (w : Text)
    → All (λ x. is_space x ≡ false) (c ∷ w)
    → words_onto [] (c ∷ w) ≡ (c ∷ w) ∷ []
words_onto-word c w h =
    ap (words_onto []) (sym (append-nil (c ∷ w)))
    ∙ words_onto-append (c ∷ w) [] [] h
    ∙ flush_end c w

strip_left-letter : (c : ℕ) (cs : Text) → is_space c ≡ false → strip_left (c ∷ cs) ≡ c ∷ cs
unfolding strip_left
strip_left-letter c cs h = ground (arith, h)

-- More words behind the first one.
unfoldable pub after : List Text → Text
after [] = []
after (v ∷ vs) = b' ' ∷ (v ++ after vs)

-- A line as iterating over a file gives it: words with one space between them, and a newline.
abbrev pub line_of_words : Text → List Text → Text
line_of_words w ws = (w ++ after ws) ++ b'\n' ∷ []

words_onto-after :
    (c : ℕ) (w : Text) (ws : List Text)
    → IsWord (c ∷ w)
    → All IsWord ws
    → words_onto [] ((c ∷ w) ++ after ws) ≡ (c ∷ w) ∷ ws
unfolding after
words_onto-after c w [] h k = ap (words_onto []) (append-nil (c ∷ w)) ∙ words_onto-word c w h
words_onto-after c w ([] ∷ vs) h k = absurd k.0
words_onto-after c w ((d ∷ v) ∷ vs) h k =
    words_onto-append (c ∷ w) [] (b' ' ∷ ((d ∷ v) ++ after vs)) h
    ∙ flush_space c w ((d ∷ v) ++ after vs)
    ∙ ap (λ ws. (c ∷ w) ∷ ws) (words_onto-after d v vs k.0 k.1)

strip_right-after :
    (c : ℕ) (w : Text) (ws : List Text)
    → IsWord (c ∷ w)
    → All IsWord ws
    → strip_right ((c ∷ w) ++ after ws) ≡ (c ∷ w) ++ after ws
unfolding after
strip_right-after c w [] h k =
    ap strip_right (append-nil (c ∷ w)) ∙ strip_right-word (c ∷ w) h ∙ sym (append-nil (c ∷ w))
strip_right-after c w ([] ∷ vs) h k = absurd k.0
strip_right-after c w ((d ∷ v) ∷ vs) h k =
    ap strip_right (sym (append_assoc (c ∷ w) (b' ' ∷ []) ((d ∷ v) ++ after vs)))
    ∙ strip_right-front ((c ∷ w) ++ b' ' ∷ []) d (v ++ after vs) (strip_right-after d v vs k.0 k.1)
    ∙ append_assoc (c ∷ w) (b' ' ∷ []) ((d ∷ v) ++ after vs)

strip-line :
    (c : ℕ) (w : Text) (ws : List Text)
    → IsWord (c ∷ w)
    → All IsWord ws
    → strip (line_of_words (c ∷ w) ws) ≡ (c ∷ w) ++ after ws
strip-line c w ws h k =
    ap strip_right (strip_left-letter c ((w ++ after ws) ++ b'\n' ∷ []) h.0)
    ∙ strip_right-newline ((c ∷ w) ++ after ws)
    ∙ strip_right-after c w ws h k

-- A line of words is read as these.
pub parse_line-words :
    (c : ℕ) (w : Text) (ws : List Text) (kw : Kwargs)
    → IsWord (c ∷ w)
    → All IsWord ws
    → nat_beq c b'#' || nat_beq c b';' ≡ false
    → parse_line (line_of_words (c ∷ w) ws) kw ≡ parse_words ((c ∷ w) ∷ ws) kw
unfolding parse_line
parse_line-words c w ws kw h k plain =
    ground (arith, strip-line c w ws h k, plain, words_onto-after c w ws h k)

digit_unspaced : (c : ℕ) → IsDigit c → is_space c ≡ false
unfolding is_space
digit_unspaced c h = ground (arith, h.0, h.1)

number-IsWord_below : (ds : Text) → ds ≢ [] → All IsDigit ds → IsWord ds
number-IsWord_below [] some_digit h = some_digit refl
number-IsWord_below (c ∷ cs) some_digit h = All-weaken (c ∷ cs) digit_unspaced h

pub number-IsWord : (n : ℕ) → IsWord (show_nat n n)
number-IsWord n = number-IsWord_below (show_nat n n) (show_nat-nonempty n n) (show_nat-digits n n)

int_of-digits : (ds : Text) → ds ≢ [] → All IsDigit ds → int_of ds ≡ some (pos (value ds))
unfolding int_of
int_of-digits [] some_digit h = absurd (some_digit refl)
int_of-digits (c ∷ cs) some_digit h =
    let unspaced = All-weaken (c ∷ cs) digit_unspaced h in
    ground (
      arith,
      h.0.0,
      ap strip_right (strip_left-letter c cs unspaced.0) ∙ strip_right-word (c ∷ cs) unspaced,
      digits_onto-value 0 false c cs h,
    )

-- A number written in decimal is read back.
pub int_of-show_nat : (n : ℕ) → int_of (show_nat n n) ≡ some (pos n)
int_of-show_nat n =
    int_of-digits (show_nat n n) (show_nat-nonempty n n) (show_nat-digits n n)
    ∙ ap (λ m. some (pos m)) (value-show_nat n)

Text-cases : (t : Text) → (t ≡ []) ⊎ ((c : ℕ) × (cs : Text) × (t ≡ c ∷ cs))
Text-cases [] = inl refl
Text-cases (c ∷ cs) = inr (c, cs, refl)

-- A comment is passed over, whatever it says.
pub parse_line-comment : (t : Text) (kw : Kwargs) → parse_line ((b'#' ∷ t) ++ b'\n' ∷ []) kw ≡ ok kw
unfolding parse_line strip_left strip_right is_space
parse_line-comment t kw = elim (Text-cases (strip_right (t ++ b'\n' ∷ []))) [
  | inl e ↦ ground (arith, e)
  | inr (c, cs, e) ↦ ground (arith, e)
]
