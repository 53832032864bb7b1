-- ===== src/Base/Texts.antt =====
-- The functions of Go's `strings` and of its `filepath` on Unix that the program calls, on texts, and
-- the order of texts.
use Prim.Native.Nat.{ℕ, compare, Ordering}
use Prim.Native.Char.{Char, code}
use Prim.Native.String.{String}
use mathlib.Core.Path.{◌≡◌, refl}
use mathlib.Core.Bool.{Bool, true, false, ◌&&◌, ◌||◌}
use native.Mathlib.Omega.{arith}
use text.Mathlib.Text.{starts_with}
use text.Mathlib.TextEquality.{codes_equal}
use homemonit.Base.Tests.{ltb, leb, nat_beq, if◌then◌else◌, ◌==◌, string_key}

-- `unicode.IsSpace` of a code.
abbrev pub is_space : ℕ → Bool
is_space c =
    (leb 9 c && leb c 13)
    || nat_beq c 32
    || nat_beq c 133
    || nat_beq c 160
    || nat_beq c 5_760
    || (leb 8_192 c && leb c 8_202)
    || nat_beq c 8_232
    || nat_beq c 8_233
    || nat_beq c 8_239
    || nat_beq c 8_287
    || nat_beq c 12_288

unfoldable pub trim_left : String → String
trim_left String.[] = String.[]
trim_left (String.◌∷◌ c s) =
    let rest = trim_left s in if is_space (code c) then rest else String.◌∷◌ c s

cons_unless_blank : Char → String → String
cons_unless_blank c String.[] = if is_space (code c) then String.[] else String.◌∷◌ c String.[]
cons_unless_blank c (String.◌∷◌ d s) = String.◌∷◌ c (String.◌∷◌ d s)

unfoldable pub trim_right : String → String
unfolding cons_unless_blank
trim_right String.[] = String.[]
trim_right (String.◌∷◌ c s) = cons_unless_blank c (trim_right s)

-- `strings.TrimSpace`.
abbrev pub trim_space : String → String
trim_space s = trim_left (trim_right s)

slash : Char → Bool
slash c = nat_beq (code c) 47

cons_unless_slash : Char → String → String
unfolding slash
cons_unless_slash c String.[] = if slash c then String.[] else String.◌∷◌ c String.[]
cons_unless_slash c (String.◌∷◌ d s) = String.◌∷◌ c (String.◌∷◌ d s)

-- Without the slashes at its end.
unfoldable pub trim_slashes : String → String
unfolding cons_unless_slash
trim_slashes String.[] = String.[]
trim_slashes (String.◌∷◌ c s) = cons_unless_slash c (trim_slashes s)

-- What stands after the last slash; `kept` is what was read since the one before.
unfoldable pub last_element : String → String → String
unfolding slash
last_element kept String.[] = kept
last_element kept (String.◌∷◌ c s) =
    let found = last_element s s in let on = last_element kept s in if slash c then found else on

-- `filepath.Base`.
abbrev pub base : String → String
base path =
    let trimmed = trim_slashes path in
    if path == "" then "." else if trimmed == "" then "/" else last_element trimmed trimmed

-- `strings.HasSuffix`.
unfoldable pub has_suffix : String → String → Bool
has_suffix String.[] t = String.[] == t
has_suffix (String.◌∷◌ c s) t = let shorter = has_suffix s t in String.◌∷◌ c s == t || shorter

abbrev pub has_prefix : String → String → Bool
has_prefix = starts_with

-- The part before the first "__" and the part after it, as `SplitN` on 2 parts gives them.
pub record Split : Type 0 where
  pub before : String
  pub after : String
  pub found : Bool

underscore : Char → Bool
underscore c = nat_beq (code c) 95

split_rest : Char → Split → Split
split_rest c s = record s { before = String.◌∷◌ c s.before }

unfoldable pub split_underscores : String → Split
unfolding split_rest underscore
split_underscores String.[] = record { before = ""; after = ""; found = false }
split_underscores (String.◌∷◌ c String.[]) = record {
  before = String.◌∷◌ c String.[];
  after = "";
  found = false;
}
split_underscores (String.◌∷◌ c (String.◌∷◌ d s)) =
    let later = split_rest c (split_underscores (String.◌∷◌ d s)) in
    if underscore c && underscore d then record { before = ""; after = s; found = true } else later

-- `<` on texts.
unfoldable pub less : String → String → Bool
less s String.[] = false
less String.[] (String.◌∷◌ d t) = true
less (String.◌∷◌ c s) (String.◌∷◌ d t) =
    let rest = less s t in
    if ltb (code c) (code d) then true else if nat_beq (code c) (code d) then rest else false

pub less_trans : (s t u : String) → less s t ≡ true → less t u ≡ true → less s u ≡ true
unfolding less
less_trans s t String.[] h k = ground (arith, k)
less_trans s String.[] (String.◌∷◌ e u) h k = ground (arith, h)
less_trans String.[] (String.◌∷◌ d t) (String.◌∷◌ e u) h k = refl
less_trans (String.◌∷◌ c s) (String.◌∷◌ d t) (String.◌∷◌ e u) h k = ground (arith, less_trans s t u)

pub less_irrefl : (s : String) → less s s ≡ false
unfolding less
less_irrefl String.[] = refl
less_irrefl (String.◌∷◌ c s) = ground (arith, less_irrefl s)

pub less-total : (s t : String) → less s t ≡ false → less t s ≡ false → s ≡ t
unfolding less
less-total String.[] String.[] h k = refl
less-total String.[] (String.◌∷◌ d t) h k = cc
less-total (String.◌∷◌ c s) String.[] h k = cc
less-total (String.◌∷◌ c s) (String.◌∷◌ d t) h k =
    let same : compare (code c) (code d) ≡ Ordering.eq = ground (arith, h, k) in
    let rest : s ≡ t = less-total s t (ground (arith, h, same)) (ground (arith, k, same)) in
    cc (codes_equal c d same, rest)

base_runs : base "/dev/sda1/" ≡ "sda1"
unfolding trim_slashes last_element
base_runs = refl

trim_runs : trim_space " \t sda 1 " ≡ "sda 1"
unfolding trim_left trim_right
trim_runs = refl

split_runs : (split_underscores "sda1__my__disk").after ≡ "my__disk"
unfolding split_underscores
split_runs = refl
