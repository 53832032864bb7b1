-- ===== src/Agent/Docker/Status.antt =====
-- agent/docker.go: the status line, the health and the ports of a container. Case is ignored in ASCII.
use Prim.Native.Char.{Char, code}
use Prim.Native.String.{String}
use Prim.Native.String.{◌++◌}
use homemonit.Base.{
  ℕ, zero, suc, ◌+◌, ◌*◌, ◌/◌, ◌%◌, ◌≤◌, ◌<◌, Bool, true, false, not, ◌&&◌, ◌||◌, Option, none,
  some, List, [], ◌∷◌, ◌≡◌, refl, ◌==◌, string_key, nat_beq, ltb, leb, if◌then◌else◌, trim_space,
  has_prefix, has_suffix, arith,
}

lower : ℕ → ℕ
lower c = if leb b'A' c && leb c b'Z' then c + 32 else c

-- `strings.ToLower(s) == t`, for a text `t` in small letters.
unfoldable pub lower_equals : String → String → Bool
unfolding lower
lower_equals String.[] String.[] = true
lower_equals String.[] (String.◌∷◌ d t) = false
lower_equals (String.◌∷◌ c s) String.[] = false
lower_equals (String.◌∷◌ c s) (String.◌∷◌ d t) =
    nat_beq (lower (code c)) (code d) && lower_equals s t

-- DockerHealthNone, Starting, Healthy and Unhealthy are 0 to 3.
unfoldable pub parse_docker_health_status : String → Option ℕ
unfolding lower_equals
parse_docker_health_status status =
    let trimmed = trim_space status in
    if lower_equals trimmed "none"
    then some 0
    else if lower_equals trimmed "starting"
    then some 1
    else if lower_equals trimmed "healthy"
    then some 2
    else if lower_equals trimmed "unhealthy"
    then some 3
    else none

after_prefix : String → String → String
after_prefix String.[] s = s
after_prefix (String.◌∷◌ c p) String.[] = ""
after_prefix (String.◌∷◌ c p) (String.◌∷◌ d s) = after_prefix p s

-- `strings.Replace(s, p, "", 1)`.
unfoldable pub remove_first : String → String → String
unfolding after_prefix
remove_first p String.[] = String.[]
remove_first p (String.◌∷◌ c s) =
    let rest = remove_first p s in
    if has_prefix (String.◌∷◌ c s) p then after_prefix p (String.◌∷◌ c s) else String.◌∷◌ c rest

found_later : Char → Option (String × String) → Option (String × String)
found_later c none = none
found_later c (some (before, after)) = some (String.◌∷◌ c before, after)

-- The text before the first character of a code, and the text after it.
unfoldable pub split_first : ℕ → String → Option (String × String)
unfolding found_later
split_first k String.[] = none
split_first k (String.◌∷◌ c s) =
    let later = found_later c (split_first k s) in
    if nat_beq (code c) k then some ("", s) else later

or_here : ℕ → Char → String → Option (String × String) → Option (String × String)
unfolding found_later
or_here k c s none = if nat_beq (code c) k then some ("", s) else none
or_here k c s (some found) = found_later c (some found)

-- The same for the last one.
unfoldable pub split_last : ℕ → String → Option (String × String)
unfolding or_here
split_last k String.[] = none
split_last k (String.◌∷◌ c s) = or_here k c s (split_last k s)

-- `strings.TrimSuffix(s, ")")`, where `s` ends so.
without_last : String → String
without_last String.[] = String.[]
without_last (String.◌∷◌ c String.[]) = String.[]
without_last (String.◌∷◌ c (String.◌∷◌ d s)) = String.◌∷◌ c (without_last (String.◌∷◌ d s))

without_label : String → Option (String × String) → String
without_label text none = text
without_label text (some (prefix, rest)) =
    let label = trim_space prefix in
    if lower_equals label "health" || lower_equals label "health status"
    then trim_space rest
    else text

-- The words in the parentheses, without a label such as "health:".
unfoldable pub health_text : String → String
unfolding without_last without_label split_first
health_text inside =
    let text = trim_space (without_last inside) in without_label text (split_first 58 text)

with_health : String → String → Option ℕ → String × ℕ
with_health status_text trimmed none = (trimmed, 0)
with_health status_text trimmed (some health) = (status_text, health)

status_parts : String → Option (String × String) → String × ℕ
unfolding with_health health_text
status_parts trimmed none = (trimmed, 0)
status_parts trimmed (some (before, inside)) =
    let before' = trim_space before in
    let status_text : String = if before' == "" then trimmed else before' in
    if not (has_suffix trimmed ")")
    then (trimmed, 0)
    else with_health status_text trimmed (parse_docker_health_status (health_text inside))

unfoldable pub parse_docker_status : String → String × ℕ
unfolding status_parts split_last remove_first parse_docker_health_status
parse_docker_status status =
    let trimmed = trim_space status in
    let short = remove_first "About " trimmed in
    if trimmed == "" then ("", 0) else status_parts short (split_last 40 short)

unfoldable pub has_infix : String → String → Bool
has_infix String.[] t = String.[] == t
has_infix (String.◌∷◌ c s) t = has_prefix (String.◌∷◌ c s) t || has_infix s t

pub record Port : Type 0 where
  pub public_port : ℕ  -- uint16
  pub ip : String

digit : ℕ → String
digit n =
    if nat_beq n 0
    then "0"
    else if nat_beq n 1
    then "1"
    else if nat_beq n 2
    then "2"
    else if nat_beq n 3
    then "3"
    else if nat_beq n 4
    then "4"
    else if nat_beq n 5
    then "5"
    else if nat_beq n 6
    then "6"
    else if nat_beq n 7
    then "7"
    else if nat_beq n 8
    then "8"
    else "9"

-- At most so many digits.
unfoldable pub decimal : ℕ → ℕ → String
unfolding digit
decimal zero n = ""
decimal (suc places) n =
    let front = decimal places (n / 10) in if ltb n 10 then digit n else front ++ digit (n % 10)

-- `strconv.Itoa` of a uint16.
unfoldable pub itoa : ℕ → String
unfolding decimal
itoa n = decimal 5 n

pub address : Port → String
address p =
    if p.ip == "0.0.0.0" || p.ip == "::"
    then itoa p.public_port
    else p.ip ++ ":" ++ itoa p.public_port

unfoldable pub seen_port : ℕ → List ℕ → Bool
seen_port port [] = false
seen_port port (seen ∷ rest) = nat_beq seen port || seen_port port rest

-- The loop, with the ports seen before; `written` is what the builder holds.
unfoldable pub write_ports : List Port → List ℕ → String → String
unfolding address itoa seen_port
write_ports [] seen written = written
write_ports (p ∷ ports) seen written =
    let skip = nat_beq p.public_port 0 || seen_port p.public_port seen in
    write_ports ports (if skip then seen else p.public_port ∷ seen)
      (if skip then written else if written == "" then address p else written ++ ", " ++ address p)

-- `sorted` is what `sort.Slice` makes of the ports.
unfoldable pub convert_container_ports_to_string : List Port → List Port → String
unfolding write_ports
convert_container_ports_to_string [] sorted = ""
convert_container_ports_to_string (p ∷ ports) sorted = write_ports sorted [] ""

-- The powers of ten.
unfoldable pub ten_to : ℕ → ℕ
ten_to zero = 1
ten_to (suc places) = 10 * ten_to places

-- A number that is less than a power of ten is written with that many places; more change nothing.
decimal-places :
    (places all n : ℕ)
    → places < all
    → n < ten_to (suc places)
    → decimal all n ≡ decimal (suc places) n
unfolding decimal ten_to
decimal-places places zero n l h = absurd (omega arith)
decimal-places zero (suc all) n l h = ground (arith, h)
decimal-places (suc places) (suc all) n l h =
    rw (decimal-places places all (n / 10) (omega arith) (omega arith)) refl

-- The five places of `itoa` are enough for every port: with more the text is the same.
pub itoa-places : (places port : ℕ) → 5 ≤ places → port < 65_536 → decimal places port ≡ itoa port
unfolding itoa ten_to
itoa-places places port l h = decimal-places 4 places port (omega arith) (omega arith)
