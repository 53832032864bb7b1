-- ===== src/Hub/Requests/Steps.antt =====
-- The runs of the request manager: sends, responses, timers and waiting code in any order.
use homemonit.Base.{
  ℕ, suc, ◌+◌, ◌%◌, ◌^◌, Bool, false, ◌&&◌, ◌≡◌, inl, inr, refl, Option, none, some, lookup, insert,
  nat_key, ◌==◌, lookup-insert, insert-IsMap, erase-IsMap, lookup-erase, Bool-cases, Option-cases,
  nat_beq_iff, arith,
}
use homemonit.Hub.Requests.{
  Message, PendingRequest, RequestManager, new_request_manager, delete_request, send_request,
  deliver, oldest, route_to, route_legacy_response, Decoded, handle_response, close_message,
  deadline_or,
}
use homemonit.Hub.Requests.Oldest.{pending-Held, lookup-Occurs, oldest-Found}
use homemonit.Hub.Requests.Invariant.{Inv, cancel_request-Inv}

pub new_request_manager-Inv : (conn : Bool) → Inv (new_request_manager conn)
unfolding new_request_manager lookup
new_request_manager-Inv conn = record {
  keyed = λ id h e. cc;
  once = tt;
  fresh = λ h l. refl;
  settled = λ h. tt;
}

-- The id of the next request is not that of one that is pending: the counter of 32 bits has not come
-- around to it.
abbrev pub IsNew : RequestManager → Type 0
IsNew rm = lookup ((rm.next_id + 1) % 2 ^ 32) rm.pending_reqs ≡ none

-- A request is entered in the heap and in the table.
enter-Inv :
    (id : ℕ) (req : PendingRequest) (rm : RequestManager)
    → lookup id rm.pending_reqs ≡ none
    → req.id ≡ id
    → req.response_ch ≡ none
    → Inv rm
    → Inv (record rm {
      next_id = id;
      next_handle = suc rm.next_handle;
      requests = insert rm.next_handle req rm.requests;
      pending_reqs = insert id rm.next_handle rm.pending_reqs;
    })
enter-Inv id req rm n same empty v =
    let h = rm.next_handle in
    let none_here : lookup h rm.requests ≡ none = v.fresh h (omega arith) in
    record {
      keyed = λ i k p. ground (
        arith,
        p,
        same,
        empty,
        none_here,
        v.keyed i k,
        lookup-insert id i h rm.pending_reqs,
        lookup-insert h k req rm.requests,
        nat_beq_iff h k,
        nat_beq_iff id i,
      );
      once = insert-IsMap id h rm.pending_reqs v.once;
      fresh =
          λ k l. ground (arith, l, v.fresh k, lookup-insert h k req rm.requests, nat_beq_iff h k);
      settled = λ k. elim (Option-cases (lookup k rm.requests)) [
        | inl e ↦ ground (
          arith,
          e,
          same,
          lookup-insert h k req rm.requests,
          nat_beq_iff h k,
          lookup-insert id id h rm.pending_reqs,
          nat_beq_iff id id,
        )
        | inr (r, e) ↦ ground (
          arith,
          e,
          same,
          n,
          none_here,
          v.settled k,
          lookup-insert h k req rm.requests,
          nat_beq_iff h k,
          lookup-insert id r.id h rm.pending_reqs,
          nat_beq_iff id r.id,
        )
      ];
    }

pub send_request-Inv :
    (now : ℕ) (deadline : Option ℕ) (goes : Bool) (rm : RequestManager)
    → IsNew rm
    → Inv rm
    → Inv (send_request now deadline goes rm).0
unfolding send_request
send_request-Inv now deadline goes rm n v =
    let id = (rm.next_id + 1) % 2 ^ 32 in
    let req : PendingRequest = record {
      id = id;
      response_ch = none;
      done = false;
      deadline = deadline_or now deadline;
      created_at = now;
    } in
    let entered = enter-Inv id req rm n refl refl v in
    elim (Bool-cases (rm.conn && goes)) [
      | inl t ↦ rw t (record {
        keyed = entered.keyed;
        once = entered.once;
        fresh = entered.fresh;
        settled = entered.settled;
      })
      | inr f ↦ rw f (cancel_request-Inv id _ entered)
    ]

-- A message is put into the channel of a pending request, which leaves the table.
fill-Inv :
    (id h : ℕ) (req : PendingRequest) (message : Message) (rm : RequestManager)
    → lookup id rm.pending_reqs ≡ some h
    → lookup h rm.requests ≡ some req
    → Inv rm
    → Inv (
        delete_request req.id (record rm {
          requests = insert h (record req { response_ch = some message }) rm.requests;
        }))
unfolding delete_request
fill-Inv id h req message rm p e v =
    let put = record req { response_ch = some message } in
    let same : req.id ≡ id = ground (arith, e, v.keyed id h p) in
    record {
      keyed = λ i k q. ground (
        arith,
        q,
        e,
        p,
        same,
        v.keyed i k,
        lookup-erase req.id i rm.pending_reqs,
        lookup-insert h k put rm.requests,
        nat_beq_iff h k,
        nat_beq_iff req.id i,
      );
      once = erase-IsMap req.id rm.pending_reqs v.once;
      fresh =
          λ k l. ground (arith, e, v.fresh k l, lookup-insert h k put rm.requests, nat_beq_iff h k);
      settled = λ k. elim (Bool-cases (h == k)) [
        | inl t ↦ rw (lookup-insert h k put rm.requests, t) (inr (inl (λ c. cc)))
        | inr f ↦ elim (Option-cases (lookup k rm.requests)) [
          | inl n ↦ rw (lookup-insert h k put rm.requests, f, n) tt
          | inr (r, g) ↦ ground (
            arith,
            f,
            g,
            p,
            same,
            v.settled k,
            lookup-insert h k put rm.requests,
            nat_beq_iff h k,
            lookup-erase req.id r.id rm.pending_reqs,
            nat_beq_iff req.id r.id,
          )
        ]
      ];
    }

-- A request in the table takes the message, or the message is closed; the handler never blocks.
deliver-Inv :
    (id h : ℕ) (message : Message) (late : Bool) (rm : RequestManager)
    → lookup id rm.pending_reqs ≡ some h
    → Inv rm
    → (rm' : RequestManager) × (deliver h (lookup h rm.requests) message late rm ≡ some rm')
      × Inv rm'
unfolding deliver
deliver-Inv id h message late rm p v = elim (Option-cases (lookup h rm.requests)) [
  | inl n ↦ absurd (ground (arith, v.keyed id h p, n))
  | inr (req, e) ↦
      let empty : req.response_ch ≡ none = ground (arith, e, v.keyed id h p) in
      elim (Bool-cases (req.done && late)) [
        | inl t ↦ (
          close_message message rm,
          ground (arith, e, empty, t),
          record { keyed = v.keyed; once = v.once; fresh = v.fresh; settled = v.settled },
        )
        | inr f ↦ (
          delete_request req.id (record rm {
            requests = insert h (record req { response_ch = some message }) rm.requests;
          }),
          ground (arith, e, empty, f),
          fill-Inv id h req message rm p e v,
        )
      ]
]

route_to-Inv :
    (id : ℕ) (message : Message) (late : Bool) (rm : RequestManager)
    → Inv rm
    → (rm' : RequestManager) × (route_to (lookup id rm.pending_reqs) message late rm ≡ some rm')
      × Inv rm'
unfolding route_to
route_to-Inv id message late rm v = elim (Option-cases (lookup id rm.pending_reqs)) [
  | inl n ↦ (
    close_message message rm,
    ground (arith, n),
    record { keyed = v.keyed; once = v.once; fresh = v.fresh; settled = v.settled },
  )
  | inr (h, e) ↦ rw (e, route_to) (deliver-Inv id h message late rm e v)
]

route_legacy_response-Inv :
    (message : Message) (late : Bool) (rm : RequestManager)
    → Inv rm
    → (rm' : RequestManager) × (route_legacy_response message late rm ≡ some rm') × Inv rm'
unfolding route_legacy_response route_to oldest
route_legacy_response-Inv message late rm v =
    elim (oldest-Found rm.requests rm.pending_reqs (pending-Held rm v)) [
      | inl n ↦ (
        close_message message rm,
        ground (arith, n),
        record { keyed = v.keyed; once = v.once; fresh = v.fresh; settled = v.settled },
      )
      | inr (id, h, f) ↦
          rw (f.is_found, route_to)
            (deliver-Inv id h message late rm (lookup-Occurs id h rm.pending_reqs v.once f.occurs)
              v)
    ]

-- Whatever arrives, the handler comes to an end, and the invariant still holds.
pub handle_response-Inv :
    (decoded : Decoded) (message : Message) (late : Bool) (rm : RequestManager)
    → Inv rm
    → (rm' : RequestManager) × (handle_response decoded message late rm ≡ some rm') × Inv rm'
unfolding handle_response
handle_response-Inv Decoded.unreadable message late rm v =
    route_legacy_response-Inv message late rm v
handle_response-Inv Decoded.without_id message late rm v =
    route_legacy_response-Inv message late rm v
handle_response-Inv (Decoded.with_id id) message late rm v = route_to-Inv id message late rm v
