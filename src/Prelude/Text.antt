-- ===== src/Prelude/Text.antt =====
-- `str.lower` and `str.strip`.
use Prim.Native.Nat.{ℕ}
use Prim.Native.Char.{Char, code}
use Prim.Native.String.{String, compare}
use text.Mathlib.Text.{is_lt}
use mathlib.Core.Path.{◌≡◌, refl}
use mathlib.Core.Bool.{Bool, true, ◌&&◌, ◌||◌}
use mathlib.Core.Option.{Option, none, some}
use dfip_v.Prelude.Tests.{if◌then◌else◌, leb, nat_beq}
use dfip_v.Prelude.Equality.{◌==◌, string_eq}

-- The letters with a one-letter lower case among the first 256 code points, and their images.
abbrev upper_letters : String
upper_letters = "ABCDEFGHIJKLMNOPQRSTUVWXYZÀÁÂÃÄÅÆÇÈÉÊËÌÍÎÏÐÑÒÓÔÕÖØÙÚÛÜÝÞ"

abbrev lower_letters : String
lower_letters = "abcdefghijklmnopqrstuvwxyzàáâãäåæçèéêëìíîïðñòóôõöøùúûüýþ"

translate : String → String → Char → Char
translate (String.◌∷◌ u us) (String.◌∷◌ l ls) c =
    if nat_beq (code u) (code c) then l else translate us ls c
translate _ _ c = c

-- `s.lower()`
unfoldable pub lower : String → String
unfolding translate
lower String.[] = ""
lower (String.◌∷◌ c s) = String.◌∷◌ (translate upper_letters lower_letters c) (lower s)

-- `c.isspace()` below 256
is_space : ℕ → Bool
is_space c = (leb 9 c && leb c 13) || (leb 28 c && leb c 32) || nat_beq c 133 || nat_beq c 160

lstrip : String → String
unfolding is_space
lstrip String.[] = ""
lstrip (String.◌∷◌ c s) = if is_space (code c) then lstrip s else String.◌∷◌ c s

rstrip : String → String
unfolding is_space
rstrip String.[] = ""
rstrip (String.◌∷◌ c s) =
    let rest = rstrip s in if is_space (code c) && rest == "" then "" else String.◌∷◌ c rest

-- `s.strip()`
unfoldable pub strip : String → String
unfolding lstrip rstrip
strip s = rstrip (lstrip s)

-- `if not s` on an optional text: `None` and the empty text are falsy
abbrev pub is_falsy : Option String → Bool
is_falsy none = true
is_falsy (some s) = s == ""

lower_runs : lower "WhatsApp É" ≡ "whatsapp é"
unfolding lower
lower_runs = refl

strip_runs : strip "  a b \t" ≡ "a b"
unfolding strip
strip_runs = refl

-- `s < t`: texts are ordered by their code points.
unfoldable pub str_ltb : String → String → Bool
str_ltb s t = is_lt (compare s t)

-- `a or b` where `b` is a text, and where it may be missing
abbrev pub truthy : Option String → String → String
truthy none b = b
truthy (some a) b = if a == "" then b else a

abbrev pub or_text : Option String → Option String → Option String
or_text none b = b
or_text (some a) b = if a == "" then b else some a

pub strip_empty : strip "" ≡ ""
unfolding strip
strip_empty = refl
