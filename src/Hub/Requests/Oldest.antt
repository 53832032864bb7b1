-- ===== src/Hub/Requests/Oldest.antt =====
-- The search for the oldest pending request.
use homemonit.Base.{
  ℕ, ◌≤◌, ◌≡◌, ◌⊎◌, inl, inr, refl, none, some, List, [], ◌∷◌, lookup, nat_key, Bool-cases,
  Option-cases, nat_beq_iff, IsMap, All, Occurs, arith,
}
use homemonit.Hub.Requests.{PendingRequest, RequestManager, older, oldest}
use homemonit.Hub.Requests.Invariant.{Inv, Open}

-- Every entry of the table leads to a request.
abbrev pub Held : List (ℕ × PendingRequest) → List (ℕ × ℕ) → Type 0
Held requests pending = All (λ e. (req : PendingRequest) × (lookup e.1 requests ≡ some req)) pending

pub lookup-Occurs :
    (id h : ℕ) (pending : List (ℕ × ℕ))
    → IsMap pending
    → Occurs (id, h) pending
    → lookup id pending ≡ some h
unfolding lookup
lookup-Occurs id h [] m o = absurd o
lookup-Occurs id h ((j, k) ∷ rest) m (inl e) = ground (arith, e, nat_beq_iff j id)
lookup-Occurs id h ((j, k) ∷ rest) m (inr o) =
    ground (arith, m, lookup-Occurs id h rest m.1 o, nat_beq_iff j id)

each-Held :
    (rm : RequestManager) (pending : List (ℕ × ℕ))
    → ((id h : ℕ) → Occurs (id, h) pending → Open id (lookup h rm.requests))
    → Held rm.requests pending
each-Held rm [] opens = tt
each-Held rm ((j, k) ∷ rest) opens = (
  elim (Option-cases (lookup k rm.requests)) [
    | inl n ↦ absurd (ground (arith, n, opens j k (inl refl)))
    | inr (req, e) ↦ (req, e)
  ],
  each-Held rm rest (λ i h o. opens i h (inr o)),
)

pub pending-Held : (rm : RequestManager) → Inv rm → Held rm.requests rm.pending_reqs
pending-Held rm v =
    each-Held rm rm.pending_reqs (λ i h o. v.keyed i h (lookup-Occurs i h rm.pending_reqs v.once o))

-- No entry of the table is older than the request.
abbrev pub Least : List (ℕ × PendingRequest) → PendingRequest → List (ℕ × ℕ) → Type 0
Least requests r pending =
    All (λ e. (q : PendingRequest) → lookup e.1 requests ≡ some q → r.created_at ≤ q.created_at)
      pending

-- The search ends at the handle of an entry, and none is older.
pub record Found (requests : List (ℕ × PendingRequest)) (pending : List (ℕ × ℕ)) (id h : ℕ)
    : Type 0 where
  pub is_found : oldest requests none pending ≡ some h
  pub occurs : Occurs (id, h) pending
  pub req : PendingRequest
  pub here : lookup h requests ≡ some req
  pub least : Least requests req pending

search_from :
    (requests : List (ℕ × PendingRequest)) (best : ℕ) (b : PendingRequest) (pending : List (ℕ × ℕ))
    → lookup best requests ≡ some b
    → Held requests pending
    → (h : ℕ) × (r : PendingRequest) × (oldest requests (some best) pending ≡ some h)
      × (lookup h requests ≡ some r)
      × (r.created_at ≤ b.created_at)
      × Least requests r pending
      × ((h ≡ best) ⊎ ((id : ℕ) × Occurs (id, h) pending))
unfolding oldest older
search_from requests best b [] e held = (best, b, refl, e, omega arith, tt, inl refl)
search_from requests best b ((j, k) ∷ rest) e held =
    let (q, f) = held.0 in
    elim (Bool-cases (older (lookup k requests) (lookup best requests))) [
      | inl t ↦
          let (h, r, s, g, le, least, w) = search_from requests k q rest f held.1 in
          (
            h,
            r,
            ground (arith, t, s),
            g,
            ground (arith, t, e, f, le),
            ((λ x y. ground (arith, y, f, le)), least),
            elim w [ inl x ↦ inr (j, inl (ground (arith, x))) | inr (i, o) ↦ inr (i, inr o) ],
          )
      | inr t ↦
          let (h, r, s, g, le, least, w) = search_from requests best b rest e held.1 in
          (
            h,
            r,
            ground (arith, t, s),
            g,
            le,
            ((λ x y. ground (arith, y, t, e, f, le)), least),
            elim w [ inl x ↦ inl x | inr (i, o) ↦ inr (i, inr o) ],
          )
    ]

pub oldest-Found :
    (requests : List (ℕ × PendingRequest)) (pending : List (ℕ × ℕ))
    → Held requests pending
    → (pending ≡ []) ⊎ ((id : ℕ) × (h : ℕ) × Found requests pending id h)
unfolding oldest
oldest-Found requests [] held = inl refl
oldest-Found requests ((j, k) ∷ rest) held =
    let (q, f) = held.0 in
    let (h, r, s, g, le, least, w) = search_from requests k q rest f held.1 in
    let all : Least requests r ((j, k) ∷ rest) = ((λ x y. ground (arith, y, f, le)), least) in
    elim w [
      | inl x ↦ inr (
        j,
        h,
        record { is_found = s; occurs = inl (ground (arith, x)); req = r; here = g; least = all },
      )
      | inr (i, o) ↦
          inr (i, h, record { is_found = s; occurs = inr o; req = r; here = g; least = all })
    ]
