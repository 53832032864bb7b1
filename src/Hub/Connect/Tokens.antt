-- ===== src/Hub/Connect/Tokens.antt =====
-- internal/hub/agent_connect.go: which connections register a system.
use homemonit.Base.{
  ℕ, ◌≤◌, String, Bool, true, none, some, List, [], ◌∷◌, ◌≡◌, ◌≢◌, ◌⊎◌, inl, inr, refl, ◌==◌,
  string_key, nat_key, lookup, Occurs, Option-cases, Bool-cases, arith,
}
use homemonit.Hub.Systems.{
  SystemRecord, SystemManager, blank, add_record, add_web_socket_system, add_web_socket,
}
use homemonit.Hub.Systems.Live.{Live}
use homemonit.Hub.Systems.View.{view, enter, view-add_record}
use homemonit.Hub.Connect.{
  Headers, Answer, bad_request, unauthorized_version, unauthorized_token, upgrade_failed, upgraded,
  byte_length, validate_agent_headers, find_by_port, upgrade, connect_with, agent_connect,
  registered, register, handle_agent_connect,
}

-- The rows are keyed by their ids, each id once.
abbrev pub IsTable : List (String × SystemRecord) → Type 0
IsTable rows = (id : String) (r : SystemRecord) → Occurs (id, r) rows → lookup r.id rows ≡ some r

find_by_port-Occurs :
    (token : String) (rows : List (String × SystemRecord)) (r : SystemRecord)
    → find_by_port token rows ≡ some r
    → (r.port ≡ token) × ((id : String) × Occurs (id, r) rows)
unfolding find_by_port
find_by_port-Occurs token [] r e = cc
find_by_port-Occurs token ((id, s) ∷ rows) r e = elim (Bool-cases (s.port == token)) [
  | inl t ↦ (ground (arith, t, string_key.test_iff s.port token), (id, inl (ground (arith, t))))
  | inr n ↦
      let (port, (key, o)) = find_by_port-Occurs token rows r (ground (arith, n)) in
      (port, (key, inr o))
]

Answer-cases : (a : Answer) → (registered a ≡ none) ⊎ ((r : SystemRecord) × (a ≡ upgraded r))
unfolding registered
Answer-cases bad_request = inl refl
Answer-cases unauthorized_version = inl refl
Answer-cases unauthorized_token = inl refl
Answer-cases upgrade_failed = inl refl
Answer-cases (upgraded r) = inr (r, refl)

-- What a connection that is upgraded rests on.
pub record Accepts (h : Headers) (rows : List (String × SystemRecord)) (r : SystemRecord)
    : Type 0 where
  pub some_token : h.token ≢ ""
  pub short : byte_length h.token ≤ 64
  pub found : find_by_port h.token rows ≡ some r

agent_connect-upgraded :
    (parses : String → Bool) (h : Headers) (upgrades : Bool) (rows : List (String × SystemRecord))
    (r : SystemRecord)
    → agent_connect parses h upgrades rows ≡ upgraded r
    → Accepts h rows r
unfolding agent_connect connect_with upgrade validate_agent_headers
agent_connect-upgraded parses h upgrades rows r e =
    elim (Option-cases (find_by_port h.token rows)) [
      | inl n ↦ absurd (ground (arith, e, n))
      | inr (s, f) ↦ record {
        some_token = ground (arith, e, f, string_key.test_iff h.token "");
        short = ground (arith, e, f);
        found = ground (arith, e, f);
      }
    ]

add_web_socket_system-known :
    (r : SystemRecord) (version : String) (conn : ℕ) (m : SystemManager) (id : String)
    → Live m
    → view (add_web_socket_system r.id version conn (some r) m).0 id ≡ enter r true (view m) id
unfolding add_web_socket_system add_web_socket
add_web_socket_system-known r version conn m id v =
    let sys = record (blank r.id) { ws_conn = some conn; agent_version = version } in
    let known = view-add_record r sys m id refl v in
    elim (Option-cases (add_record r sys m).1) [
      | inl e ↦ ground (arith, e, known)
      | inr (x, e) ↦ ground (arith, e, known)
    ]

register-known :
    (version : String) (conn : ℕ) (rows : List (String × SystemRecord)) (r : SystemRecord)
    (m : SystemManager) (id : String)
    → Live m
    → lookup r.id rows ≡ some r
    → view (register version conn rows (some r) m) id ≡ enter r true (view m) id
unfolding register
register-known version conn rows r m id v e =
    rw (e, register) (add_web_socket_system-known r version conn m id v)

-- A connection of an agent is either not upgraded, and the manager stays as it is, or it is upgraded
-- for a row, and its token is a text of 1 to 64 bytes that this row has as its port. In the second case
-- the manager knows the system of that row as connected, with the status of the row, if the row has a
-- host; it knows the other systems as before. The rows are keyed by their ids, and the manager's store
-- is live.
pub handle_agent_connect-known :
    (parses : String → Bool) (h : Headers) (upgrades : Bool) (conn : ℕ)
    (rows : List (String × SystemRecord)) (m : SystemManager)
    → IsTable rows
    → Live m
    → let (answer, m') = handle_agent_connect parses h upgrades conn rows m in
      ((registered answer ≡ none) × (m' ≡ m))
      ⊎ ((r : SystemRecord) × (answer ≡ upgraded r)
          × (r.port ≡ h.token)
          × (h.token ≢ "")
          × (byte_length h.token ≤ 64)
          × ((id : String) → view m' id ≡ enter r true (view m) id))
unfolding handle_agent_connect
handle_agent_connect-known parses h upgrades conn rows m t v =
    elim (Answer-cases (agent_connect parses h upgrades rows)) [
      | inl n ↦ inl (n, rw (register, n) refl)
      | inr (r, e) ↦
          let a = agent_connect-upgraded parses h upgrades rows r e in
          let (port, (key, o)) = find_by_port-Occurs h.token rows r a.found in
          inr (
            r,
            e,
            port,
            a.some_token,
            a.short,
            λ id. rw e (register-known h.agent_version conn rows r m id v (t key r o)),
          )
    ]
