-- ===== src/Hub/Systems/Live.antt =====
-- The store of systems, the pointers and the updaters: each system of the store is live, and a live
-- updater is the one of the store.
use homemonit.Base.{
  ℕ, ◌≤◌, ◌<◌, String, true, false, ◌||◌, ◌≡◌, ◌≢◌, ◌⊎◌, inl, inr, refl, none, some, ◌∷◌, ◌==◌,
  string_key, nat_key, lookup, insert, lookup-insert, Occurs, Option-cases, Bool-cases, arith,
}
use homemonit.Entities.{empty_data}
use homemonit.Hub.Systems.{System, SystemManager, new_system_manager, alloc, modify, add_system}

-- A pointer of the store leads to a system of that id, which is not cancelled.
pub record Stored (m : SystemManager) (id : String) (h : ℕ) : Type 0 where
  pub sys : System
  pub found : lookup h m.heap ≡ some sys
  pub same : sys.id ≡ id
  pub live : sys.cancelled ≡ false

pub record Live (m : SystemManager) : Type 0 where
  -- what `alloc` gives is new
  pub fresh : (h : ℕ) → m.next ≤ h → lookup h m.heap ≡ none
  pub old : (h : ℕ) → Occurs h m.updaters → h < m.next
  pub stored : (id : String) (h : ℕ) → lookup id m.systems ≡ some h → Stored m id h
  -- an updater that was not cancelled serves the system of the store
  pub alone :
      (h : ℕ) (sys : System)
      → Occurs h m.updaters
      → lookup h m.heap ≡ some sys
      → sys.cancelled ≡ false
      → lookup sys.id m.systems ≡ some h

pub new_system_manager-Live : Live new_system_manager
unfolding new_system_manager lookup
new_system_manager-Live = record {
  fresh = λ h le. refl;
  old = λ h o. absurd o;
  stored = λ id h e. absurd (ground arith);
  alone = λ h sys o. absurd o;
}

-- A write through a pointer that leaves the id and the cancellation.
pub modify-Live :
    (f : System → System) (h : ℕ) (m : SystemManager)
    → ((sys : System) → ((f sys).id ≡ sys.id) × ((f sys).cancelled ≡ sys.cancelled))
    → Live m
    → Live (modify f h m)
unfolding modify
modify-Live f h m keeps v = elim (Option-cases (lookup h m.heap)) [
  | inl e ↦ rw (e, modify) v
  | inr (sys, e) ↦
      rw (e, modify)
        (record {
          fresh =
              λ i le. ground (arith, e, v.fresh i le, v.fresh h, lookup-insert h i (f sys) m.heap);
          old = v.old;
          stored = λ id i s.
              let t = v.stored id i s in
              elim (Bool-cases (h == i)) [
                | inl same ↦ record {
                  sys = f sys;
                  found = ground (arith, lookup-insert h i (f sys) m.heap, same);
                  same = ground (arith, same, e, t.found, t.same, (keeps sys).0);
                  live = ground (arith, same, e, t.found, t.live, (keeps sys).1);
                }
                | inr other ↦ record {
                  sys = t.sys;
                  found = ground (arith, lookup-insert h i (f sys) m.heap, other, t.found);
                  same = t.same;
                  live = t.live;
                }
              ];
          alone = λ i new o g l. elim (Bool-cases (h == i)) [
            | inl same ↦
                ground
                  (arith, e, same, keeps sys, v.alone i sys o, lookup-insert h i (f sys) m.heap)
            | inr other ↦ ground (arith, other, v.alone i new o, lookup-insert h i (f sys) m.heap)
          ];
        })
]

-- A new pointer, on which no updater runs.
pub alloc-Live : (sys : System) (m : SystemManager) → Live m → Live (alloc sys m).0
unfolding alloc
alloc-Live sys m v = record {
  fresh = λ h le. ground (arith, v.fresh h, lookup-insert m.next h sys m.heap);
  old = λ h o. omega (arith, v.old h o);
  stored = λ id h s.
      let t = v.stored id h s in
      record {
        sys = t.sys;
        found = ground (arith, t.found, v.fresh m.next, lookup-insert m.next h sys m.heap);
        same = t.same;
        live = t.live;
      };
  alone = λ h other o g l.
      ground (arith, v.old h o, v.alone h other o, lookup-insert m.next h sys m.heap);
}

pub lookup-alloc :
    (sys : System) (m : SystemManager)
    → let (m', h) = alloc sys m in
      (lookup h m'.heap ≡ some sys) × (m'.systems ≡ m.systems) × (h ≡ m.next)
unfolding alloc
lookup-alloc sys m = (ground (arith, lookup-insert m.next m.next sys m.heap), refl, refl)

abbrev pub added : ℕ → System → SystemManager → SystemManager
added h sys m = record m {
  heap = insert h (record sys { received = empty_data }) m.heap;
  systems = insert sys.id h m.systems;
  updaters = h ∷ m.updaters;
}

-- `AddSystem` changes nothing, or stores the system and starts its updater.
pub add_system-cases :
    (h : ℕ) (sys : System) (m : SystemManager)
    → lookup h m.heap ≡ some sys
    → (((add_system h m).0 ≡ m)
        × ((lookup sys.id m.systems ≢ none) ⊎ ((sys.id == "" || sys.host == "") ≡ true)))
      ⊎ (((add_system h m).0 ≡ added h sys m)
          × (lookup sys.id m.systems ≡ none)
          × ((sys.id == "" || sys.host == "") ≡ false))
unfolding add_system
add_system-cases h sys m e = elim (Option-cases (lookup sys.id m.systems)) [
  | inr (other, known) ↦ inl (ground (arith, e, known), inl (ground (arith, known)))
  | inl new ↦ elim (Bool-cases (sys.id == "" || sys.host == "")) [
    | inl missing ↦ inl (ground (arith, e, new, missing), inr missing)
    | inr full ↦ inr (ground (arith, e, new, full), new, full)
  ]
]

added-Live :
    (h : ℕ) (sys : System) (m : SystemManager)
    → Live m
    → lookup h m.heap ≡ some sys
    → sys.cancelled ≡ false
    → h < m.next
    → lookup sys.id m.systems ≡ none
    → Live (added h sys m)
added-Live h sys m v e live small new =
    let filled = record sys { received = empty_data } in
    record {
      fresh = λ i le. ground (arith, v.fresh i le, lookup-insert h i filled m.heap);
      old = λ i o. elim o [ inl same ↦ omega (arith, same) | inr o ↦ v.old i o ];
      stored = λ id i s.
          let reads = lookup-insert sys.id id h m.systems in
          let writes = lookup-insert h i filled m.heap in
          elim (Bool-cases (sys.id == id)) [
            | inl same ↦ record {
              sys = filled;
              found = ground (arith, s, same, reads, writes, nat_key.test_iff h i);
              same = ground (arith, same, string_key.test_iff sys.id id);
              live = live;
            }
            | inr other ↦
                let t = v.stored id i (ground (arith, s, other, reads)) in
                record {
                  sys = t.sys;
                  found = ground (
                    arith,
                    t.found,
                    t.same,
                    e,
                    other,
                    writes,
                    nat_key.test_iff h i,
                    string_key.test_iff sys.id id,
                  );
                  same = t.same;
                  live = t.live;
                }
          ];
      alone = λ i other o g l.
          let reads = lookup-insert sys.id other.id h m.systems in
          let writes = lookup-insert h i filled m.heap in
          elim (Bool-cases (h == i)) [
            | inl same ↦ ground (
              arith,
              g,
              same,
              reads,
              writes,
              nat_key.test_iff h i,
              string_key.test_iff sys.id other.id,
            )
            | inr differs ↦ elim o [
              | inl same ↦ absurd (ground (arith, differs, same, nat_key.test_iff h i))
              | inr o ↦
                  let kept = v.alone i other o (ground (arith, g, differs, writes)) l in
                  ground (arith, kept, new, reads, string_key.test_iff sys.id other.id)
            ]
          ];
    }

-- `AddSystem` on a live pointer.
pub add_system-Live :
    (h : ℕ) (sys : System) (m : SystemManager)
    → Live m
    → lookup h m.heap ≡ some sys
    → sys.cancelled ≡ false
    → h < m.next
    → Live (add_system h m).0
add_system-Live h sys m v e live small = elim (add_system-cases h sys m e) [
  | inl same ↦ rw same.0 v
  | inr new ↦ rw new.0 (added-Live h sys m v e live small new.1)
]
