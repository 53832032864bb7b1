-- ===== src/Hub/Systems/Removal.antt =====
-- The removal of a system, and `AddRecord`, which replaces the system of the store.
use homemonit.Base.{
  ℕ, ◌<◌, String, true, false, ◌≡◌, ◌∙◌, ◌⊎◌, inl, inr, refl, Option, none, some, ◌==◌, string_key,
  nat_key, if◌then◌else◌, lookup, insert, erase, lookup-insert, lookup-erase, Option-cases,
  Bool-cases, arith,
}
use homemonit.Hub.Systems.{
  System, SystemManager, SystemRecord, alloc, has, get_system, close_web_socket_connection,
  remove_system, add_record,
}
use homemonit.Hub.Systems.Live.{Stored, Live, alloc-Live, lookup-alloc, add_system-Live}

-- The manager after the removal of the system that the pointer leads to.
abbrev pub removed : String → ℕ → System → SystemManager → SystemManager
removed id h sys m = record m {
  heap = insert h (record sys { cancelled = true }) m.heap;
  systems = erase id m.systems;
}

-- `RemoveSystem` changes nothing where the id is not in the store; else it cancels the system, closes
-- its connection and takes it out of the store.
pub remove_system-cases :
    (id : String) (m : SystemManager)
    → Live m
    → ((lookup id m.systems ≡ none) × (remove_system id m ≡ (m, false)))
      ⊎ ((h : ℕ) × (s : Stored m id h) × (lookup id m.systems ≡ some h)
          × (remove_system id m
              ≡ (close_web_socket_connection s.sys.ws_conn (removed id h s.sys m), true)))
unfolding remove_system get_system close_web_socket_connection
remove_system-cases id m v = elim (Option-cases (lookup id m.systems)) [
  | inl e ↦ inl (e, ground (arith, e))
  | inr (h, e) ↦ let s = v.stored id h e in inr (h, s, e, ground (arith, e, s.found, s.sys.ws_conn))
]

close-Live : (c : Option ℕ) (m : SystemManager) → Live m → Live (close_web_socket_connection c m)
unfolding close_web_socket_connection
close-Live none m v = v
close-Live (some c) m v = record {
  fresh = v.fresh;
  old = v.old;
  stored = λ id h s.
      let t = v.stored id h s in
      record { sys = t.sys; found = t.found; same = t.same; live = t.live };
  alone = v.alone;
}

removed-Live :
    (id : String) (h : ℕ) (m : SystemManager) (s : Stored m id h)
    → Live m
    → lookup id m.systems ≡ some h
    → Live (removed id h s.sys m)
removed-Live id h m s v e =
    let gone = record s.sys { cancelled = true } in
    record {
      fresh =
          λ i le. ground (arith, v.fresh i le, v.fresh h, s.found, lookup-insert h i gone m.heap);
      old = v.old;
      stored = λ j i t.
          let reads = lookup-erase id j m.systems in
          let writes = lookup-insert h i gone m.heap in
          let u = v.stored j i (ground (arith, t, reads)) in
          record {
            sys = u.sys;
            found = ground (
              arith,
              t,
              reads,
              writes,
              u.found,
              u.same,
              s.found,
              s.same,
              nat_key.test_iff h i,
              string_key.test_iff id j,
            );
            same = u.same;
            live = u.live;
          };
      alone = λ i other o g l.
          let reads = lookup-erase id other.id m.systems in
          let writes = lookup-insert h i gone m.heap in
          ground (
            arith,
            g,
            l,
            e,
            reads,
            writes,
            v.alone i other o,
            nat_key.test_iff h i,
            string_key.test_iff id other.id,
          );
    }

close-systems :
    (asked : String) (c : Option ℕ) (m : SystemManager)
    → lookup asked (close_web_socket_connection c m).systems ≡ lookup asked m.systems
unfolding close_web_socket_connection
close-systems asked none m = refl
close-systems asked (some c) m = refl

pub remove_system-Live : (id : String) (m : SystemManager) → Live m → Live (remove_system id m).0
remove_system-Live id m v = elim (remove_system-cases id m v) [
  | inl same ↦ rw same.1 v
  | inr (h, s, e, eq) ↦
      rw eq (close-Live s.sys.ws_conn (removed id h s.sys m) (removed-Live id h m s v e))
]

-- After a removal the id is not in the store, and the other ids are as before.
pub lookup-remove_system :
    (id asked : String) (m : SystemManager)
    → Live m
    → lookup asked (remove_system id m).0.systems
      ≡ (if id == asked then none else lookup asked m.systems)
lookup-remove_system id asked m v = elim (remove_system-cases id m v) [
  | inl same ↦ rw same.1 (ground (arith, same.0, string_key.test_iff id asked))
  | inr (h, s, e, eq) ↦
      rw eq
        (close-systems asked s.sys.ws_conn (removed id h s.sys m) ∙ lookup-erase id asked m.systems)
]

-- What `AddRecord` has when it adds the system.
abbrev pub emptied : SystemRecord → SystemManager → SystemManager
emptied r m = if has r.id m then (remove_system r.id m).0 else m

pub emptied-Live : (r : SystemRecord) (m : SystemManager) → Live m → Live (emptied r m)
emptied-Live r m v = elim (Bool-cases (has r.id m)) [
  | inl known ↦ rw known (remove_system-Live r.id m v)
  | inr new ↦ rw new v
]

pub lookup-emptied :
    (r : SystemRecord) (asked : String) (m : SystemManager)
    → Live m
    → lookup asked (emptied r m).systems ≡ (if r.id == asked then none else lookup asked m.systems)
unfolding has
lookup-emptied r asked m v = ground (
  arith,
  lookup-remove_system r.id asked m v,
  lookup r.id m.systems,
  string_key.test_iff r.id asked,
)

abbrev pub filled : SystemRecord → System → System
filled r sys = record sys { status = r.status; host = r.host; port = r.port }

alloc-next : (sys : System) (m : SystemManager) → m.next < (alloc sys m).0.next
unfolding alloc
alloc-next sys m = omega arith

pub add_record-Live :
    (r : SystemRecord) (sys : System) (m : SystemManager)
    → sys.cancelled ≡ false
    → Live m
    → Live (add_record r sys m).0
unfolding add_record
add_record-Live r sys m live v =
    let m' = emptied r m in
    let new = filled r sys in
    let v' = emptied-Live r m v in
    add_system-Live m'.next new (alloc new m').0 (alloc-Live new m' v') (lookup-alloc new m').0 live
      (alloc-next new m')
