-- ===== src/Hub/Systems/Refinement.antt =====
-- The hooks on the `systems` collection implement a map from ids to statuses: the abstract machine
-- that has no store, no pointers and no updaters.
use homemonit.Base.{
  ℕ, String, true, false, not, ◌&&◌, ◌≡◌, inl, inr, refl, ◌∙◌, Option, none, some, List, [], ◌∷◌,
  ◌==◌, string_key, nat_key, if◌then◌else◌, lookup, insert, Bool-cases, Option-cases, Occurs, arith,
}
use mathlib.Core.Path.{fun_ext}
use homemonit.Entities.{empty_info}
use homemonit.Hub.Systems.{
  System, SystemManager, SystemRecord, blank, modify, get_system, add_record, add_web_socket_system,
}
use homemonit.Hub.Systems.Hooks.{
  Hub, Outside, on_record_create, on_record_update, status_changed, save_system, create_system,
  delete_system, on_record_after_create_success, on_record_after_delete_success,
  on_record_after_update_success,
}
use homemonit.Hub.Systems.Live.{Stored, Live, modify-Live}
use homemonit.Hub.Systems.Removal.{remove_system-Live, add_record-Live}
use homemonit.Hub.Systems.View.{
  Known, View, view, known_of, enter, view-add_record, view-remove_system, view-modify,
  get_system-cases,
}

-- A row changed. A paused system that is not known stays so; a pending one is entered anew, unless its
-- agent is connected; any other is entered where it is not known.
abbrev pub changed_to : SystemRecord → Option Known → View → View
changed_to r none known = if r.status == "paused" then known else enter r false known
changed_to r (some old) known =
    if r.status == "pending" && not old.connected then enter r false known else λ id.
    if r.id == id then some (record old { status = r.status }) else known id

abbrev pub changed : SystemRecord → View → View
changed r known = changed_to r (known r.id) known

pub data Event : Type 0 where
  created : ℕ → SystemRecord → Event
  updated : ℕ → SystemRecord → Event
  deleted : SystemRecord → Event
  joined : String → ℕ → SystemRecord → Event  -- an agent's connection is accepted

-- The abstract machine.
unfoldable pub spec : Event → View → View
unfolding on_record_create on_record_update
spec (created now r) known = enter (on_record_create r) false known
spec (updated now r) known = changed r known
spec (deleted r) known = λ id. if r.id == id then none else known id
spec (joined version conn r) known = enter r true known

unfoldable pub apply : Outside → Event → Hub → Hub
apply out (created now r) hub = create_system out now r hub
apply out (updated now r) hub = save_system out now r hub
apply out (deleted r) hub = delete_system out r hub
apply out (joined version conn r) hub = record hub {
  manager = (add_web_socket_system r.id version conn (some r) hub.manager).0;
}

unfoldable pub run : Outside → List Event → Hub → Hub
unfolding apply
run out [] hub = hub
run out (e ∷ events) hub = run out events (apply out e hub)

unfoldable pub spec_run : List Event → View → View
unfolding spec
spec_run [] known = known
spec_run (e ∷ events) known = spec_run events (spec e known)

-- Live managers that know the same as the abstract state.
pub record Implements (m : SystemManager) (known : View) : Type 0 where
  pub live : Live m
  pub same : (id : String) → view m id ≡ known id

updates-Live : (h : ℕ) (m : SystemManager) → Live m → Live (record m { updates = h ∷ m.updates })
updates-Live h m v = record {
  fresh = v.fresh;
  old = v.old;
  stored = λ id i s.
      let t = v.stored id i s in
      record { sys = t.sys; found = t.found; same = t.same; live = t.live };
  alone = v.alone;
}

view-updates :
    (h : ℕ) (m : SystemManager) (id : String)
    → view (record m { updates = h ∷ m.updates }) id ≡ view m id
unfolding get_system
view-updates h m id = refl

paused-pending : (s : String) → (s == "paused") ≡ true → (s == "pending") ≡ false
paused-pending s p = rw ((string_key.test_iff s "paused").0 p) refl

module _ (out : Outside) (r : SystemRecord) (hub : Hub) where
  -- The manager after the hook, whatever the alerts do.
  manager-none :
      (status_changed out r none hub).manager
      ≡ (if r.status == "paused" then hub.manager else (add_record r (blank r.id) hub.manager).0)
  unfolding status_changed
  manager-none = ground (arith, r.status == "paused", r.status == "pending")

  moved : ℕ → SystemManager
  moved h = modify (λ sys. record sys { status = r.status }) h hub.manager

  manager-some :
      (h : ℕ) (sys : System)
      → (status_changed out r (some (h, sys)) hub).manager ≡ (
          if r.status == "pending"
          then elim sys.ws_conn [
            | none ↦ (add_record r (blank r.id) (moved h)).0
            | some conn ↦ record (moved h) { updates = h ∷ (moved h).updates }
          ]
          else moved h)
  unfolding status_changed moved
  manager-some h sys = elim (Bool-cases (r.status == "paused")) [
    | inl p ↦ ground (arith, p, paused-pending r.status p)
    | inr q ↦ elim (Bool-cases (r.status == "pending")) [
      | inl p ↦ ground (arith, q, p, sys.ws_conn)
      | inr q' ↦ ground (arith, q, q', r.status == "up")
    ]
  ]

  moved-Implements :
      (h : ℕ) (s : Stored hub.manager r.id h)
      → Live hub.manager
      → lookup r.id hub.manager.systems ≡ some h
      → Implements (moved h) (λ id.
        if r.id == id
        then some (record (known_of s.sys) { status = r.status })
        else view hub.manager id)
  unfolding moved
  moved-Implements h s v e =
      let f : System → System = λ sys. record sys { status = r.status } in
      record {
        live = modify-Live f h hub.manager (λ sys. (refl, refl)) v;
        same = λ id. view-modify f r.id h hub.manager s id v e;
      }

  entered-Implements :
      (m : SystemManager)
      → Live m
      → ((id : String) → (r.id == id) ≡ false → view m id ≡ view hub.manager id)
      → Implements (add_record r (blank r.id) m).0 (enter r false (view hub.manager))
  entered-Implements m v others = record {
    live = add_record-Live r (blank r.id) m refl v;
    same = λ id. view-add_record r (blank r.id) m id refl v ∙ elim (Bool-cases (r.id == id)) [
      | inl same ↦ rw same refl
      | inr other ↦ rw other (others id other)
    ];
  }

  status_changed-Implements :
      Live hub.manager
      → Implements
          (status_changed out r (get_system r.id hub.manager) hub).manager
          (changed r (view hub.manager))
  status_changed-Implements v = elim (get_system-cases r.id hub.manager v) [
    | inl missing ↦
        rw (missing.1, manager-none)
          (elim (Bool-cases (r.status == "paused")) [
            | inl p ↦ rw p (record { live = v; same = λ id. refl })
            | inr q ↦ rw q (entered-Implements hub.manager v (λ id other. refl))
          ])
    | inr (h, s, e, eq) ↦
        let m = moved-Implements h s v e in
        rw (eq, manager-some h s.sys)
          (elim (Bool-cases (r.status == "pending")) [
            | inr q ↦ rw q m
            | inl p ↦ rw p (elim (Option-cases s.sys.ws_conn) [
              | inl none_yet ↦
                  rw none_yet
                    (entered-Implements (moved h) m.live (λ id other. m.same id ∙ rw other refl))
              | inr (conn, is) ↦ rw is (record {
                live = updates-Live h (moved h) m.live;
                same = λ id. view-updates h (moved h) id ∙ m.same id ∙ rw is refl;
              })
            ])
          ])
  ]

abbrev pub with_row : SystemRecord → Hub → Hub
with_row r hub = record hub { rows = insert r.id r hub.rows }

abbrev joining : String → ℕ → SystemRecord → System
joining version conn r = record (blank r.id) { ws_conn = some conn; agent_version = version }

joined_manager :
    (version : String) (conn : ℕ) (r : SystemRecord) (m : SystemManager)
    → (add_web_socket_system r.id version conn (some r) m).0
      ≡ (add_record r (joining version conn r) m).0
unfolding add_web_socket_system
joined_manager version conn r m = ground (arith, (add_record r (joining version conn r) m).1)

apply-Implements :
    (out : Outside) (e : Event) (hub : Hub)
    → Live hub.manager
    → Implements (apply out e hub).manager (spec e (view hub.manager))
unfolding apply spec save_system create_system delete_system on_record_after_create_success
    on_record_after_delete_success on_record_after_update_success on_record_update on_record_create
apply-Implements out (created now r) hub v =
    let r' = record (on_record_create r) { updated = now } in
    record {
      live = add_record-Live r' (blank r.id) hub.manager refl v;
      same = λ id. view-add_record r' (blank r.id) hub.manager id refl v;
    }
apply-Implements out (updated now r) hub v = elim (Bool-cases (r.status == "paused")) [
  | inl p ↦
      let r' = record r { info = empty_info; updated = now } in
      rw (on_record_update, p) (status_changed-Implements out r' (with_row r' hub) v)
  | inr q ↦
      let r' = record r { updated = now } in
      rw (on_record_update, q) (status_changed-Implements out r' (with_row r' hub) v)
]
apply-Implements out (deleted r) hub v = record {
  live = remove_system-Live r.id hub.manager v;
  same = λ id. view-remove_system r.id id hub.manager v;
}
apply-Implements out (joined version conn r) hub v =
    let sys = joining version conn r in
    rw (joined_manager version conn r hub.manager) (record {
      live = add_record-Live r sys hub.manager refl v;
      same = λ id. view-add_record r sys hub.manager id refl v;
    })

-- The manager implements the map from ids to statuses: whatever the hooks are called with and in
-- whatever order, the systems that it knows, their statuses and which of them are connected are those
-- of the abstract machine, and it stays live. It starts live.
pub run-Implements :
    (out : Outside) (events : List Event) (hub : Hub)
    → Live hub.manager
    → Implements (run out events hub).manager (spec_run events (view hub.manager))
unfolding run spec_run
run-Implements out [] hub v = record { live = v; same = λ id. refl }
run-Implements out (e ∷ events) hub v =
    let step = apply-Implements out e hub v in
    let same : view (apply out e hub).manager ≡ spec e (view hub.manager) = fun_ext step.same in
    rw (← same) (run-Implements out events (apply out e hub) step.live)

-- After any history of the hooks, two updaters that were not cancelled serve two systems: at most one
-- updater works on an id. The manager starts live.
pub run-one_updater :
    (out : Outside) (events : List Event) (hub : Hub) (h h' : ℕ) (sys sys' : System)
    → Live hub.manager
    → let m = (run out events hub).manager in
      Occurs h m.updaters
      → Occurs h' m.updaters
      → lookup h m.heap ≡ some sys
      → lookup h' m.heap ≡ some sys'
      → sys.cancelled ≡ false
      → sys'.cancelled ≡ false
      → sys.id ≡ sys'.id
      → h ≡ h'
run-one_updater out events hub h h' sys sys' v o o' e e' l l' same =
    let w = (run-Implements out events hub v).live in
    ground (arith, same, w.alone h sys o e l, w.alone h' sys' o' e' l')
