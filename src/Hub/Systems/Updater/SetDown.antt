-- ===== src/Hub/Systems/Updater/SetDown.antt =====
-- internal/hub/systems/system.go: the row of a system of which an update failed.
use homemonit.Base.{
  nat_beq, nat_beq_iff, ap, lookup-insert, ℕ, String, true, false, not, ◌||◌, ◌≡◌, inl, inr, refl,
  ◌∙◌, Option, none, some, ◌==◌, string_key, nat_key, if◌then◌else◌, lookup, insert, Option-cases,
  Bool-cases, arith,
}
use homemonit.Entities.{CombinedData}
use homemonit.Hub.Systems.{
  System, SystemManager, SystemRecord, get_system, modify, remove_system,
  close_web_socket_connection,
}
use homemonit.Hub.Systems.Hooks.{
  Hub, Outside, on_record_update, on_record_after_update_success, status_changed, save_system,
  active_now,
}
use homemonit.Hub.Systems.Updater.Deprecated.{migrate_deprecated_fields}
use homemonit.Hub.Systems.Updater.{
  Round, get_record, fetch_data_from_agent, create_records, update, set_down, store_received,
  create_for, down_row, at_manager,
}

close-heap : (c : Option ℕ) (m : SystemManager) → (close_web_socket_connection c m).heap ≡ m.heap
unfolding close_web_socket_connection
close-heap none m = refl
close-heap (some c) m = refl

-- What a row of a system that is set down becomes, where the system's last status is this one.
abbrev pub row_set_down : Round → String → Option SystemRecord → Option SystemRecord
row_set_down t status none = none
row_set_down t status (some r) =
    if status == "down" || (status == "paused" || not t.commit)
    then some r
    else some (record r { status = "down"; updated = t.now })

module _ (out : Outside) where
  -- A failed update leaves the rows of systems, and the system under the pointer has its id and status.
  pub record Lost (h : ℕ) (id status : String) (a b : Hub) : Type 0 where
    pub rows : a.rows ≡ b.rows
    pub there : System
    pub found : lookup h a.manager.heap ≡ some there
    pub same_id : there.id ≡ id
    pub same_status : there.status ≡ status

  unchanged-Lost :
      (h : ℕ) (sys : System) (hub : Hub)
      → lookup h hub.manager.heap ≡ some sys
      → Lost h sys.id sys.status hub hub
  unchanged-Lost h sys hub e = record {
    rows = refl;
    there = sys;
    found = e;
    same_id = refl;
    same_status = refl;
  }

  received-Lost :
      (d : CombinedData) (h : ℕ) (sys : System) (a b : Hub)
      → Lost h sys.id sys.status a b
      → Lost h sys.id sys.status (at_manager (modify (λ sys. record sys { received = d }) h) a) b
  unfolding modify
  received-Lost d h sys a b l =
      let s = record l.there { received = d } in
      record {
        rows = l.rows;
        there = s;
        found = ground (arith, l.found, lookup-insert h h s a.manager.heap, nat_key.test_iff h h);
        same_id = l.same_id;
        same_status = l.same_status;
      }

  get_system-heap :
      (id : String) (m : SystemManager) (k : ℕ) (s : System)
      → get_system id m ≡ some (k, s)
      → lookup k m.heap ≡ some s
  unfolding get_system
  get_system-heap id m k s e = elim (Option-cases (lookup id m.systems)) [
    | inl missing ↦ absurd (ground (arith, e, missing))
    | inr (i, found) ↦ elim (Option-cases (lookup i m.heap)) [
      | inl missing ↦ absurd (ground (arith, e, found, missing))
      | inr (sys, g) ↦ ground (arith, e, found, g)
    ]
  ]

  -- A removal cancels the system, and leaves what is under the other pointers.
  removed_heap :
      (id : String) (m : SystemManager) (h : ℕ) (there : System)
      → lookup h m.heap ≡ some there
      → (s : System) × (lookup h (remove_system id m).0.heap ≡ some s)
        × (s.id ≡ there.id)
        × (s.status ≡ there.status)
  unfolding remove_system close_web_socket_connection
  removed_heap id m h there at = elim (Option-cases (get_system id m)) [
    | inl e ↦ (there, ground (arith, e, at), refl, refl)
    | inr ((k, s), e) ↦
        let gone = record s { cancelled = true } in
        let own = get_system-heap id m k s e in
        let read = lookup-insert k h gone m.heap in
        elim (Bool-cases (nat_beq k h)) [
          | inl t ↦
              let one : k ≡ h = (nat_beq_iff k h).0 t in
              let same : s ≡ there = ground (arith, own, at, one) in
              (gone, ground (arith, e, read, t), ap (λ x. x.id) same, ap (λ x. x.status) same)
          | inr t ↦ (there, ground (arith, e, read, t, at), refl, refl)
        ]
  ]

  removed-Lost :
      (id : String) (h : ℕ) (sys : System) (a b : Hub)
      → Lost h sys.id sys.status a b
      → Lost h sys.id sys.status (at_manager (λ m. (remove_system id m).0) a) b
  removed-Lost id h sys a b l =
      let (s, found, same_id, same_status) = removed_heap id a.manager h l.there l.found in
      record {
        rows = l.rows;
        there = s;
        found = found;
        same_id = same_id ∙ l.same_id;
        same_status = same_status ∙ l.same_status;
      }

  get_record-Lost :
      (id : String) (h : ℕ) (sys : System) (a b : Hub)
      → Lost h sys.id sys.status a b
      → Lost h sys.id sys.status (get_record id a).0 b
  unfolding get_record
  get_record-Lost id h sys a b l = elim (Option-cases (lookup id a.rows)) [
    | inl e ↦ rw (get_record, e) (removed-Lost id h sys a b l)
    | inr (r, e) ↦ rw (get_record, e) l
  ]

  create_for-Lost :
      (t : Round) (d : CombinedData) (found : Hub × Option SystemRecord) (h : ℕ) (sys : System)
      (b : Hub)
      → (create_for out t d found).1 ≡ false
      → Lost h sys.id sys.status found.0 b
      → Lost h sys.id sys.status (create_for out t d found).0 b
  unfolding create_for
  create_for-Lost t d (hub, none) h sys b e l = l
  create_for-Lost t d (hub, some r) h sys b e l = elim (Bool-cases t.commit) [
    | inl ok ↦ absurd (ground (arith, ok, e))
    | inr lost ↦ rw (create_for, lost) l
  ]

  store_received-Lost :
      (t : Round) (h : ℕ) (sys : System) (found : Hub × Option CombinedData) (b : Hub)
      → (store_received out t h sys found).1 ≡ false
      → Lost h sys.id sys.status found.0 b
      → Lost h sys.id sys.status (store_received out t h sys found).0 b
  unfolding store_received create_records
  store_received-Lost t h sys (hub, none) b e l = l
  store_received-Lost t h sys (hub, some answer) b e l =
      let d = migrate_deprecated_fields out.floats answer (not sys.details_fetched) in
      let migrated = at_manager (modify (λ sys. record sys { received = d }) h) hub in
      elim (Bool-cases (create_records out t sys.id d migrated).1) [
        | inl ok ↦ absurd (ground (arith, ok, e))
        | inr lost ↦
            rw (store_received, lost)
              (create_for-Lost t d (get_record sys.id migrated) h sys b lost
                (get_record-Lost sys.id h sys migrated b (received-Lost d h sys hub b l)))
      ]

  fetch-Lost :
      (t : Round) (h : ℕ) (sys : System) (hub : Hub)
      → lookup h hub.manager.heap ≡ some sys
      → Lost h sys.id sys.status (fetch_data_from_agent t h sys hub).0 hub
  unfolding fetch_data_from_agent close_web_socket_connection
  fetch-Lost t h sys hub at =
      let l = unchanged-Lost h sys hub at in
      elim (Option-cases sys.ws_conn) [
        | inl e ↦ rw (fetch_data_from_agent, e) l
        | inr (conn, e) ↦ elim (Bool-cases t.connected) [
          | inr f ↦ rw (fetch_data_from_agent, e, f) l
          | inl f ↦ elim (Option-cases t.answer) [
            | inl g ↦
                rw (fetch_data_from_agent, e, f, g)
                  (record {
                    rows = refl;
                    there = sys;
                    found = ap (lookup h) (close-heap sys.ws_conn hub.manager) ∙ at;
                    same_id = refl;
                    same_status = refl;
                  })
            | inr (d, g) ↦ rw (fetch_data_from_agent, e, f, g) (received-Lost d h sys hub hub l)
          ]
        ]
      ]

  pub update-Lost :
      (t : Round) (h : ℕ) (sys : System) (hub : Hub)
      → lookup h hub.manager.heap ≡ some sys
      → (update out t h sys hub).1 ≡ false
      → Lost h sys.id sys.status (update out t h sys hub).0 hub
  unfolding update
  update-Lost t h sys hub at e = elim (Bool-cases (sys.status == "paused")) [
    | inl p ↦ absurd (ground (arith, p, e))
    | inr p ↦
        rw (update, p)
          (store_received-Lost t h sys (fetch_data_from_agent t h sys hub) hub
            (ground (arith, p, e)) (fetch-Lost t h sys hub at))
  ]

  down_saved :
      (now : ℕ) (r : SystemRecord) (hub : Hub)
      → (save_system out now (record r { status = "down" }) hub).rows
        ≡ insert r.id (record r { status = "down"; updated = now }) hub.rows
  unfolding save_system on_record_after_update_success status_changed on_record_update active_now
  down_saved now r hub = elim (Option-cases (get_system r.id hub.manager)) [
    | inl e ↦ ground (arith, e)
    | inr ((h, sys), e) ↦ ground (arith, e, sys.status == "up")
  ]

  pub set_down-rows :
      (t : Round) (sys : System) (hub : Hub)
      → ((r : SystemRecord) → lookup sys.id hub.rows ≡ some r → r.id ≡ sys.id)
      → lookup sys.id (set_down out t sys hub).rows
        ≡ row_set_down t sys.status (lookup sys.id hub.rows)
  unfolding set_down down_row get_record
  set_down-rows t sys hub keyed = elim (Option-cases (lookup sys.id hub.rows)) [
    | inl e ↦ ground (arith, e, sys.status == "down", sys.status == "paused")
    | inr (r, e) ↦
        let written = down_saved t.now r hub in
        ground (
          arith,
          e,
          keyed r e,
          written,
          sys.status == "down",
          sys.status == "paused",
          t.commit,
          lookup-insert r.id sys.id (record r { status = "down"; updated = t.now }) hub.rows,
          string_key.test_iff r.id sys.id,
        )
  ]
