-- ===== src/Agent/Network/Keys.antt =====
-- The two keys under which a tracker holds the counters of an interface.
use homemonit.Base.{String, ◌≡◌, ◌≢◌, ap, ◌+◌, ◌∙◌, sym, arith, string_key}
use Prim.Native.String.{◌++◌, count}
use text.Mathlib.TextLemmas.{append_cancel_right, append_assoc, append_inj, length-append}
use homemonit.Agent.Network.{up_key, down_key}

pub up_key_inj : (a b : String) → up_key a ≡ up_key b → a ≡ b
up_key_inj a b e = append_cancel_right a b "up" e

pub down_key_inj : (a b : String) → down_key a ≡ down_key b → a ≡ b
down_key_inj a b e = append_cancel_right a b "down" e

-- One ends in "p" and the other in "n".
pub up_key≢down_key : (a b : String) → up_key a ≢ down_key b
up_key≢down_key a b e =
    let split : (a ++ "u") ++ "p" ≡ (b ++ "dow") ++ "n" =
      append_assoc a "u" "p" ∙ e ∙ sym (append_assoc b "dow" "n") in
    let sizes : count (a ++ "u") + 1 ≡ count (b ++ "dow") + 1 =
      sym (length-append (a ++ "u") "p") ∙ ap count split ∙ length-append (b ++ "dow") "n" in
    let last = (append_inj split (omega (arith, sizes))).1 in
    ground (arith, last, string_key.test_iff "p" "n")
