-- ===== src/Prelude/Text.antt =====
-- The string operations of Python that the program calls. Case is mapped for the letters A to Z;
-- other characters stay as they are.
use Prim.Native.Nat.{ℕ, zero, suc, ◌+◌, ◌-◌, ◌*◌, ◌/◌, ◌%◌}
use Prim.Native.Char.{Char, code}
use Prim.Native.String.{String, [], ◌∷◌, ◌++◌ as append, char_at}
use mathlib.Core.Bool.{Bool, true, false, ◌&&◌, ◌||◌}
use mathlib.Core.List
use mathlib.Core.Option.{Option, none, some}
use airgap_videowall.Prelude.Tests.{leb, if◌then◌else◌}

lower_char : Char → Char
lower_char c =
    if leb 65 (code c) && leb (code c) 90
    then char_at "abcdefghijklmnopqrstuvwxyz" (code c - 65)
    else c

-- s.lower()
unfoldable pub lower : String → String
unfolding lower_char
lower [] = []
lower (c ∷ s) = lower_char c ∷ lower s

digit_char : ℕ → Char
digit_char d = char_at "0123456789" d

digits_of : ℕ → ℕ → String → String
digits_of zero n acc = acc
digits_of (suc fuel) n acc =
    let more = digits_of fuel (n / 10) (digit_char (n % 10) ∷ acc) in
    if leb n 9 then digit_char n ∷ acc else more

-- str(n) of a number that is not negative: `n` has at most `n + 1` digits.
unfoldable pub decimal : ℕ → String
unfolding digits_of digit_char
decimal n = digits_of (suc n) n []

-- what `str.isspace` is true of
is_space : ℕ → Bool
is_space c =
    leb 9 c && leb c 13
    || (leb 28 c && leb c 32)
    || (leb 133 c && leb c 133)
    || (leb 160 c && leb c 160)
    || (leb 5760 c && leb c 5760)
    || (leb 8192 c && leb c 8202)
    || (leb 8232 c && leb c 8233)
    || (leb 8239 c && leb c 8239)
    || (leb 8287 c && leb c 8287)
    || (leb 12288 c && leb c 12288)

unfoldable pub lstrip : String → String
unfolding is_space
lstrip [] = []
lstrip (c ∷ s) = if is_space (code c) then lstrip s else c ∷ s

unfoldable pub rstrip : String → String
unfolding is_space
rstrip [] = []
rstrip (c ∷ s) =
    let rest = rstrip s in
    elim rest [ [] ↦ (if is_space (code c) then [] else c ∷ []) | d ∷ t ↦ c ∷ d ∷ t ]

-- s.strip()
unfoldable pub strip : String → String
unfolding lstrip rstrip
strip s = rstrip (lstrip s)

-- the digits of int(s): a `_` may stand between two of them
unfoldable pub parse_digits : ℕ → Bool → String → Option ℕ
parse_digits n after [] = if after then some n else none
parse_digits n after (c ∷ s) =
    let next = parse_digits (n * 10 + (code c - 48)) true s in
    let gap = parse_digits n false s in
    if leb 48 (code c) && leb (code c) 57
    then next
    else if after && (leb 95 (code c) && leb (code c) 95)
    then gap
    else none

add_word : String → List.List String → List.List String
add_word [] ws = ws
add_word (c ∷ w) ws = List.◌∷◌ (c ∷ w) ws

-- The words of a text: the one that it starts with, and the others.
words : String → String × List.List String
unfolding is_space
words [] = ([], List.[])
words (c ∷ s) =
    let (w, ws) = words s in if is_space (code c) then ([], add_word w ws) else (c ∷ w, ws)

-- s.split()
unfoldable pub split : String → List.List String
unfolding words add_word
split s = let (w, ws) = words s in add_word w ws

-- s.split(sep), of a separator of one character
unfoldable pub split_at : ℕ → String → String × List.List String
split_at sep [] = ([], List.[])
split_at sep (c ∷ s) =
    let (first, rest) = split_at sep s in
    if leb (code c) sep && leb sep (code c) then ([], List.◌∷◌ first rest) else (c ∷ first, rest)

unfoldable pub parts : ℕ → String → List.List String
unfolding split_at
parts sep s = let (first, rest) = split_at sep s in List.◌∷◌ first rest

-- " ".join(words)
unfoldable pub join : List.List String → String
join List.[] = []
join (List.◌∷◌ s List.[]) = s
join (List.◌∷◌ s (List.◌∷◌ t ts)) = append s (append " " (join (List.◌∷◌ t ts)))

-- s.startswith(p)
unfoldable pub starts_with : String → String → Bool
starts_with s [] = true
starts_with [] (p ∷ ps) = false
starts_with (c ∷ s) (p ∷ ps) =
    if leb (code c) (code p) && leb (code p) (code c) then starts_with s ps else false

-- "".join(parts)
unfoldable pub concat : List.List String → String
concat List.[] = []
concat (List.◌∷◌ s ss) = append s (concat ss)

all_digits : String → Bool
all_digits [] = true
all_digits (c ∷ s) = leb 48 (code c) && leb (code c) 57 && all_digits s

-- int(s) of a text of digits, and `none` for every other one
unfoldable pub digits : String → Option ℕ
unfolding all_digits
digits s = if all_digits s then parse_digits 0 false s else none
