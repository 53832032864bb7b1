-- ===== src/Hub/Systems/View.antt =====
-- The systems manager as a map from the ids of the systems to what is known of them: the status and
-- whether an agent is connected. The store, the pointers and the updaters are forgotten.
use homemonit.Base.{
  ℕ, String, Bool, true, false, ◌||◌, ◌≡◌, ◌⊎◌, inl, inr, refl, ◌∙◌, Option, none, some, ◌==◌,
  string_key, nat_key, if◌then◌else◌, lookup, insert, lookup-insert, lookup-erase, Option-cases,
  Bool-cases, arith,
}
use homemonit.Entities.{empty_data}
use homemonit.Hub.Systems.{
  System, SystemManager, SystemRecord, alloc, has, get_system, modify, add_system,
  close_web_socket_connection, remove_system, add_record,
}
use homemonit.Hub.Systems.Live.{Stored, Live, alloc-Live, lookup-alloc, add_system-cases, added}
use homemonit.Hub.Systems.Removal.{
  removed, remove_system-cases, emptied, emptied-Live, lookup-emptied, filled,
}

pub record Known : Type 0 where
  pub status : String
  pub connected : Bool

abbrev pub is_connected : Option ℕ → Bool
is_connected none = false
is_connected (some c) = true

abbrev pub known_of : System → Known
known_of sys = record { status = sys.status; connected = is_connected sys.ws_conn }

abbrev pub known_found : Option (ℕ × System) → Option Known
known_found none = none
known_found (some (h, sys)) = some (known_of sys)

-- The abstract state.
abbrev pub View : Type 0
View = String → Option Known

abbrev pub view : SystemManager → View
view m id = known_found (get_system id m)

-- An id that is not in the store is not known; one that is has the status of its system.
pub view-none : (m : SystemManager) (id : String) → lookup id m.systems ≡ none → view m id ≡ none
unfolding get_system
view-none m id e = ground (arith, e)

pub view-some :
    (m : SystemManager) (id : String) (h : ℕ) (sys : System)
    → lookup id m.systems ≡ some h
    → lookup h m.heap ≡ some sys
    → view m id ≡ some (known_of sys)
unfolding get_system
view-some m id h sys e f = ground (arith, e, f)

-- Two states with the same store, whose pointers for the id lead to the same system, know the same.
view-same :
    (m m' : SystemManager) (id : String)
    → lookup id m'.systems ≡ lookup id m.systems
    → ((h : ℕ) → lookup id m.systems ≡ some h → lookup h m'.heap ≡ lookup h m.heap)
    → view m' id ≡ view m id
unfolding get_system
view-same m m' id e f = elim (Option-cases (lookup id m.systems)) [
  | inl missing ↦ ground (arith, e, missing)
  | inr (h, found) ↦ ground (arith, e, found, f h found)
]

view-close :
    (c : Option ℕ) (m : SystemManager) (id : String)
    → view (close_web_socket_connection c m) id ≡ view m id
unfolding close_web_socket_connection get_system
view-close none m id = refl
view-close (some c) m id = refl

pub view-remove_system :
    (id asked : String) (m : SystemManager)
    → Live m
    → view (remove_system id m).0 asked ≡ (if id == asked then none else view m asked)
view-remove_system id asked m v = elim (remove_system-cases id m v) [
  | inl same ↦ rw same.1 (ground (arith, view-none m id same.0, string_key.test_iff id asked))
  | inr (h, s, e, eq) ↦
      let gone = removed id h s.sys m in
      let reads = lookup-erase id asked m.systems in
      rw eq (
        view-close s.sys.ws_conn gone asked ∙ elim (Bool-cases (id == asked)) [
          | inl same ↦ rw same (view-none gone asked (ground (arith, same, reads)))
          | inr other ↦ rw other (
              view-same m gone asked (ground (arith, other, reads)) (λ i found.
                let u = v.stored asked i found in
                ground (
                  arith,
                  other,
                  u.found,
                  u.same,
                  s.found,
                  s.same,
                  string_key.test_iff id asked,
                  lookup-insert h i (record s.sys { cancelled = true }) m.heap,
                  nat_key.test_iff h i,
                )))
        ])
]

view-alloc :
    (sys : System) (m : SystemManager) (id : String) → Live m → view (alloc sys m).0 id ≡ view m id
unfolding alloc
view-alloc sys m id v = view-same m (alloc sys m).0 id refl (λ h found.
    let u = v.stored id h found in
    ground (
      arith,
      u.found,
      v.fresh m.next,
      lookup-insert m.next h sys m.heap,
      nat_key.test_iff m.next h,
    ))

view-added :
    (h : ℕ) (sys : System) (m : SystemManager) (id : String)
    → Live m
    → lookup h m.heap ≡ some sys
    → lookup sys.id m.systems ≡ none
    → view (added h sys m) id ≡ (if sys.id == id then some (known_of sys) else view m id)
view-added h sys m id v e new =
    let filled = record sys { received = empty_data } in
    let reads = lookup-insert sys.id id h m.systems in
    elim (Bool-cases (sys.id == id)) [
      | inl same ↦ rw same (
          view-some (added h sys m) id h filled (ground (arith, same, reads))
            (ground (arith, lookup-insert h h filled m.heap, nat_key.test_iff h h)))
      | inr other ↦ rw other (
          view-same m (added h sys m) id (ground (arith, other, reads)) (λ i found.
            let u = v.stored id i found in
            ground (
              arith,
              other,
              u.found,
              u.same,
              e,
              string_key.test_iff sys.id id,
              lookup-insert h i filled m.heap,
              nat_key.test_iff h i,
            )))
    ]

view-add_system :
    (h : ℕ) (sys : System) (m : SystemManager) (id : String)
    → Live m
    → lookup h m.heap ≡ some sys
    → lookup sys.id m.systems ≡ none
    → view (add_system h m).0 id ≡ (
        if sys.id == id
        then if sys.id == "" || sys.host == "" then none else some (known_of sys)
        else view m id)
view-add_system h sys m id v e new = elim (add_system-cases h sys m e) [
  | inl (same, inl known) ↦ absurd (known new)
  | inl (same, inr missing) ↦
      rw (same, missing) (ground (arith, view-none m sys.id new, string_key.test_iff sys.id id))
  | inr (eq, n, full) ↦ rw (eq, full) (view-added h sys m id v e new)
]

-- What the abstract state knows after `AddRecord`.
abbrev pub enter : SystemRecord → Bool → View → View
enter r connected known id =
    if r.id == id
    then if r.id == "" || r.host == ""
      then none
      else some (record { status = r.status; connected = connected })
    else known id

view-emptied :
    (r : SystemRecord) (m : SystemManager) (id : String)
    → Live m
    → view (emptied r m) id ≡ (if r.id == id then none else view m id)
unfolding has
view-emptied r m id v = ground (
  arith,
  view-remove_system r.id id m v,
  lookup r.id m.systems,
  view-none m id,
  string_key.test_iff r.id id,
)

pub view-add_record :
    (r : SystemRecord) (sys : System) (m : SystemManager) (id : String)
    → sys.id ≡ r.id
    → Live m
    → view (add_record r sys m).0 id ≡ enter r (is_connected sys.ws_conn) (view m) id
unfolding add_record
view-add_record r sys m id same v =
    let m' = emptied r m in
    let new = filled r sys in
    let v' = emptied-Live r m v in
    let heap = lookup-alloc new m' in
    let m'' = (alloc new m').0 in
    let empty : lookup sys.id m''.systems ≡ none =
      ground (arith, same, heap.1, lookup-emptied r r.id m v, string_key.test_iff r.id r.id) in
    let others = view-alloc new m' id v' ∙ view-emptied r m id v in
    let else_same : (if sys.id == id
          then if sys.id == "" || r.host == "" then none else some (known_of new)
          else view m'' id)
        ≡ enter r (is_connected sys.ws_conn) (view m) id =
      rw same (ground (arith, others)) in
    view-add_system m'.next new m'' id (alloc-Live new m' v') heap.0 empty ∙ else_same

-- A write through the pointer of the store.
pub view-modify :
    (f : System → System) (id : String) (h : ℕ) (m : SystemManager) (s : Stored m id h)
    (asked : String)
    → Live m
    → lookup id m.systems ≡ some h
    → view (modify f h m) asked ≡ (if id == asked then some (known_of (f s.sys)) else view m asked)
unfolding modify
view-modify f id h m s asked v e =
    let m' = record m { heap = insert h (f s.sys) m.heap } in
    rw (modify, s.found)
      (elim (Bool-cases (id == asked)) [
        | inl same ↦ rw same (
            view-some m' asked h (f s.sys) (ground (arith, same, e, string_key.test_iff id asked))
              (ground (arith, lookup-insert h h (f s.sys) m.heap, nat_key.test_iff h h)))
        | inr other ↦ rw other (
            view-same m m' asked refl (λ i found.
              let u = v.stored asked i found in
              ground (
                arith,
                other,
                u.found,
                u.same,
                s.found,
                s.same,
                string_key.test_iff id asked,
                lookup-insert h i (f s.sys) m.heap,
                nat_key.test_iff h i,
              )))
      ])

-- What the store has for an id.
pub get_system-cases :
    (id : String) (m : SystemManager)
    → Live m
    → ((lookup id m.systems ≡ none) × (get_system id m ≡ none))
      ⊎ ((h : ℕ) × (s : Stored m id h) × (lookup id m.systems ≡ some h)
          × (get_system id m ≡ some (h, s.sys)))
unfolding get_system
get_system-cases id m v = elim (Option-cases (lookup id m.systems)) [
  | inl e ↦ inl (e, ground (arith, e))
  | inr (h, e) ↦ let s = v.stored id h e in inr (h, s, e, ground (arith, e, s.found))
]
