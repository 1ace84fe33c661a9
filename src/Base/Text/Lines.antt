-- ===== src/Base/Text/Lines.antt =====
-- `str::lines` and `str::trim`.
use Prim.Native.Nat.{ℕ}
use mathlib.Core.Path.{◌≡◌, refl}
use mathlib.Core.Bool.{Bool, true, false, ◌&&◌, ◌||◌}
use mathlib.Core.List.{List, [], ◌∷◌, ◌++◌}
use native.Mathlib.Omega.{arith}
use sifir.Base.Tests.{leb, ◌==◌, if◌then◌else◌}
use sifir.Base.Lists.{All}
use sifir.Base.Text.{Str, extend}

abbrev pub line_feed : ℕ
line_feed = 10

abbrev pub carriage_return : ℕ
carriage_return = 13

-- The text goes on with a line feed.
abbrev at_line_end : Str → Bool
at_line_end [] = false
at_line_end (c ∷ s) = c == line_feed

-- The lines of a text. A carriage return before the line feed goes with it, and a last line needs
-- no line feed.
unfoldable pub lines : Str → List Str
lines [] = []
lines (c ∷ s) =
    let rest = lines s in
    if c == line_feed
    then [] ∷ rest
    else if c == carriage_return && at_line_end s
    then rest
    else extend c rest

-- `char::is_whitespace`: the code points with the Unicode property White_Space.
unfoldable pub is_whitespace : ℕ → Bool
is_whitespace c =
    leb 0x09 c && leb c 0x0d
    || c == 0x20
    || c == 0x85
    || c == 0xa0
    || c == 0x1680
    || leb 0x2000 c && leb c 0x200a
    || c == 0x2028
    || c == 0x2029
    || c == 0x202f
    || c == 0x205f
    || c == 0x3000

trim_start : Str → Str
trim_start [] = []
trim_start (c ∷ s) = if is_whitespace c then trim_start s else c ∷ s

-- Keeps a character in front of what is left of the rest, unless both are white space.
abbrev keep : ℕ → Str → Str
keep c [] = if is_whitespace c then [] else c ∷ []
keep c (d ∷ s) = c ∷ d ∷ s

trim_end : Str → Str
trim_end [] = []
trim_end (c ∷ s) = keep c (trim_end s)

unfoldable pub trim : Str → Str
unfolding trim_start trim_end is_whitespace
trim s = trim_end (trim_start s)

-- A line as a writer emits it: no white space, no line end.
abbrev pub IsSolid : Str → Type 0
IsSolid = All (λ c. is_whitespace c ≡ false)

trim_end-IsSolid : (s : Str) → IsSolid s → trim_end s ≡ s
unfolding trim_end
trim_end-IsSolid [] h = refl
trim_end-IsSolid (c ∷ []) (h, _) = rw h
trim_end-IsSolid (c ∷ d ∷ s) (h, hs) = rw (trim_end-IsSolid (d ∷ s) hs)

trim_start-IsSolid : (s : Str) → IsSolid s → trim_start s ≡ s
unfolding trim_start
trim_start-IsSolid [] h = refl
trim_start-IsSolid (c ∷ s) (h, hs) = rw h

-- A line without white space is its own trimmed form.
pub trim_lem : (s : Str) → IsSolid s → trim s ≡ s
unfolding trim
trim_lem s h = rw (trim_start-IsSolid s h) (trim_end-IsSolid s h)

-- A line that can be told from its line end.
abbrev pub HasNoBreak : Str → Type 0
HasNoBreak = All (λ c. ((c == line_feed) ≡ false) × ((c == carriage_return) ≡ false))

-- A line end: a line feed, with a carriage return in front of it or not.
abbrev pub line_end : Bool → Str
line_end false = line_feed ∷ []
line_end true = carriage_return ∷ line_feed ∷ []

-- The first line of a text, and the lines of the rest.
pub lines-append :
    (s : Str) (crlf : Bool) (rest : Str)
    → HasNoBreak s
    → lines (s ++ (line_end crlf ++ rest)) ≡ s ∷ lines rest
unfolding lines
lines-append [] false rest h = refl
lines-append [] true rest h = refl
lines-append (c ∷ s) crlf rest ((a, b), h) = rw (a, b, lines-append s crlf rest h)

pub IsSolid-HasNoBreak : (s : Str) → IsSolid s → HasNoBreak s
unfolding is_whitespace
IsSolid-HasNoBreak [] h = tt
IsSolid-HasNoBreak (c ∷ s) (h, hs) = ((ground arith, ground arith), IsSolid-HasNoBreak s hs)
