-- ===== src/Hub/Connect/Examples.antt =====
-- Two systems and an agent that has the token of one: the theorem on connections at concrete values.
use homemonit.Base.{
  none, ◌≤◌, String, true, false, List, [], ◌∷◌, ◌≡◌, ◌≢◌, ◌⊎◌, inl, inr, refl, ◌==◌, string_key,
  lookup, ap,
}
use homemonit.Entities.{empty_info}
use homemonit.Hub.Systems.{SystemRecord, new_system_manager}
use homemonit.Hub.Systems.Live.{new_system_manager-Live}
use homemonit.Hub.Systems.View.{view, enter}
use homemonit.Hub.Connect.{
  registered, Headers, upgraded, byte_length, find_by_port, agent_connect, handle_agent_connect,
  is_container_id, validate_agent_headers,
}
use homemonit.Hub.Connect.Tokens.{IsTable, handle_agent_connect-known}

abbrev row : String → String → SystemRecord
row id token = record {
  id = id;
  name = id;
  host = "h";
  port = token;
  status = "pending";
  info = empty_info;
  updated = 0;
}

abbrev rows : List (String × SystemRecord)
rows = ("s1", row "s1" "t1") ∷ ("s2", row "s2" "t2") ∷ []

abbrev headers : Headers
headers = record { token = "t2"; agent_version = "0.18.0" }

rows-IsTable : IsTable rows
unfolding lookup
rows-IsTable id r (inl e) = rw (ap (λ (x : String × SystemRecord). x.1) e) refl
rows-IsTable id r (inr (inl e)) = rw (ap (λ (x : String × SystemRecord). x.1) e) refl
rows-IsTable id r (inr (inr o)) = elim o [ ]

handle_agent_connect-known_example :
    let (answer, m') =
      handle_agent_connect (λ v. v == "0.18.0") headers true 7 rows new_system_manager in
    ((registered answer ≡ none) × (m' ≡ new_system_manager))
    ⊎ ((r : SystemRecord) × (answer ≡ upgraded r)
        × (r.port ≡ "t2")
        × (headers.token ≢ "")
        × (byte_length "t2" ≤ 64)
        × ((id : String) → view m' id ≡ enter r true (view new_system_manager) id))
handle_agent_connect-known_example =
    handle_agent_connect-known (λ v. v == "0.18.0") headers true 7 rows new_system_manager
      rows-IsTable new_system_manager-Live

second_row : agent_connect (λ v. v == "0.18.0") headers true rows ≡ upgraded (row "s2" "t2")
unfolding agent_connect validate_agent_headers byte_length find_by_port
second_row = refl

-- An id of a container is made of 12 to 64 hexadecimal digits.
ids :
    (is_container_id "a1b2C3d4e5f6" ≡ true)
    × (is_container_id "a1b2c3d4e5f" ≡ false)
    × (is_container_id "../../images" ≡ false)
unfolding is_container_id
ids = (refl, refl, refl)
