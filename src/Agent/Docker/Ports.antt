-- ===== src/Agent/Docker/Ports.antt =====
-- agent/docker.go: which ports of a container are shown, and in which order.
use homemonit.Base.{
  Occurs, All, All-Occurs-every, ◌⊎◌, ◌↔◌, ℕ, ◌≤◌, ◌<◌, String, true, false, List, [], ◌∷◌, ◌≡◌,
  refl, ◌==◌, ◌||◌, string_key, nat_beq, nat_beq_iff, if◌then◌else◌, Bool-cases, inl, inr, arith,
}
use Prim.Native.String.{◌++◌}
use homemonit.Agent.Docker.Status.{
  Port, address, seen_port, write_ports, convert_container_ports_to_string,
}

-- What is written, and after it these ports, with ", " between.
unfoldable pub joined : String → List Port → String
joined written [] = written
joined written (p ∷ ports) =
    joined (if written == "" then address p else written ++ ", " ++ address p) ports

-- The numbers rise from above this one.
abbrev pub Above : ℕ → List Port → Type 0
Above n [] = Unit
Above n (p ∷ ports) = (n < p.public_port) × Above p.public_port ports

abbrev pub AtLeast : ℕ → List Port → Type 0
AtLeast n [] = Unit
AtLeast n (p ∷ ports) = (n ≤ p.public_port) × AtLeast p.public_port ports

-- The ports that the loop writes.
chosen : List Port → List ℕ → List Port
unfolding seen_port
chosen [] seen = []
chosen (p ∷ ports) seen =
    let skip = nat_beq p.public_port 0 || seen_port p.public_port seen in
    let rest = chosen ports seen in
    let rest' = chosen ports (p.public_port ∷ seen) in if skip then rest else p ∷ rest'

write_ports-chosen :
    (ports : List Port) (seen : List ℕ) (written : String)
    → write_ports ports seen written ≡ joined written (chosen ports seen)
unfolding write_ports joined chosen
write_ports-chosen [] seen written = refl
write_ports-chosen (p ∷ ports) seen written =
    elim (Bool-cases (nat_beq p.public_port 0 || seen_port p.public_port seen)) [
      | inl s ↦ rw s (write_ports-chosen ports seen written)
      | inr s ↦ rw s (
          write_ports-chosen ports (p.public_port ∷ seen)
            (if written == "" then address p else written ++ ", " ++ address p))
    ]

-- What `sort.Slice` promises: the same ports, of which the numbers do not fall. Ports of one number can
-- stand in any order.
pub record IsSortOf (ports sorted : List Port) : Type 0 where
  pub rises : AtLeast 0 sorted
  pub same : (p : Port) → Occurs p sorted ↔ Occurs p ports

chosen-Occurs :
    (ports : List Port) (seen : List ℕ) (q : Port) → Occurs q (chosen ports seen) → Occurs q ports
unfolding chosen
chosen-Occurs [] seen q h = h
chosen-Occurs (p ∷ ports) seen q h = ground (
  arith,
  h,
  chosen-Occurs ports seen q,
  chosen-Occurs ports (p.public_port ∷ seen) q,
  nat_beq p.public_port 0,
  seen_port p.public_port seen,
)

-- A port of this number is in the list.
abbrev Listed : ℕ → List Port → Type 0
Listed n ports = (q : Port) × Occurs q ports × (q.public_port ≡ n)

chosen_complete :
    (ports : List Port) (seen : List ℕ) (p : Port)
    → Occurs p ports
    → (p.public_port ≡ 0)
      ⊎ (seen_port p.public_port seen ≡ true)
      ⊎ Listed p.public_port (chosen ports seen)
unfolding chosen seen_port
chosen_complete [] seen p h = absurd h
chosen_complete (q ∷ ports) seen p h =
    elim (Bool-cases (nat_beq q.public_port 0 || seen_port q.public_port seen)) [
      | inl s ↦ rw s (elim h [
        | inl here ↦ elim (Bool-cases (nat_beq q.public_port 0)) [
          | inl z ↦ inl (rw here ((nat_beq_iff q.public_port 0).0 z))
          | inr z ↦ inr (inl (rw here (ground (arith, s, z))))
        ]
        | inr later ↦ chosen_complete ports seen p later
      ])
      | inr s ↦ rw s (elim h [
        | inl here ↦ inr (inr (q, inl refl, rw here refl))
        | inr later ↦ elim (chosen_complete ports (q.public_port ∷ seen) p later) [
          | inl z ↦ inl z
          | inr (inl e) ↦ elim (Bool-cases (nat_beq q.public_port p.public_port)) [
            | inl same ↦ inr (inr (q, inl refl, (nat_beq_iff q.public_port p.public_port).0 same))
            | inr other ↦ inr (inl (ground (arith, e, other)))
          ]
          | inr (inr (r, o, same)) ↦ inr (inr (r, inr o, same))
        ]
      ])
    ]

below :
    (m : ℕ) (p : Port) (seen : List ℕ)
    → m ≤ p.public_port
    → (0 < m → seen_port m seen ≡ true)
    → (nat_beq p.public_port 0 || seen_port p.public_port seen) ≡ false
    → m < p.public_port
below m p seen l t s = elim (Bool-cases (nat_beq m p.public_port)) [
  | inl e ↦ absurd (ground (arith, s, t, (nat_beq_iff m p.public_port).0 e))
  | inr e ↦ ground (arith, l, e)
]

-- `m` is 0 or the greatest of the ports seen.
chosen-Above :
    (m : ℕ) (ports : List Port) (seen : List ℕ)
    → AtLeast m ports
    → ((n : ℕ) → seen_port n seen ≡ true → n ≤ m)
    → (0 < m → seen_port m seen ≡ true)
    → Above m (chosen ports seen)
unfolding chosen
chosen-Above m [] seen h u t = tt
chosen-Above m (p ∷ ports) seen (l, h) u t =
    elim (Bool-cases (nat_beq p.public_port 0 || seen_port p.public_port seen)) [
      | inl s ↦
          let same : m ≡ p.public_port =
            ground (arith, s, l, u p.public_port, seen_port p.public_port seen) in
          rw s (chosen-Above m ports seen (rw same h) u t)
      | inr s ↦
          let more : m < p.public_port = below m p seen l t s in
          rw s (
            more,
            chosen-Above p.public_port ports (p.public_port ∷ seen) h
                (λ n e. ground (arith, e, u n, more, nat_beq_iff p.public_port n, seen_port n seen))
                (λ z. ground (arith, nat_beq_iff p.public_port p.public_port)),
          )
    ]

-- The text of a container's ports, after they are sorted by their numbers, has ports of the container
-- after each other, and their numbers rise from above 0. Each port of the container has number 0, or a
-- port of its number is in the text.
pub convert_container_ports_to_string-sorted :
    (ports sorted : List Port)
    → IsSortOf ports sorted
    → (shown : List Port) × (convert_container_ports_to_string ports sorted ≡ joined "" shown)
      × Above 0 shown
      × All (λ p. Occurs p ports) shown
      × ((p : Port)
          → Occurs p ports
          → (p.public_port ≡ 0) ⊎ ((q : Port) × Occurs q shown × (q.public_port ≡ p.public_port)))
unfolding convert_container_ports_to_string seen_port joined
convert_container_ports_to_string-sorted [] sorted h = ([], refl, tt, tt, λ p o. absurd o)
convert_container_ports_to_string-sorted (port ∷ ports) sorted h = (
  chosen sorted [],
  write_ports-chosen sorted [] "",
  chosen-Above 0 sorted [] h.rises (λ n e. ground (arith, e)) (λ z. ground (arith, z)),
  All-Occurs-every (λ p. Occurs p (port ∷ ports)) (chosen sorted [])
      (λ p o. (h.same p).0 (chosen-Occurs sorted [] p o)),
  λ p o. elim (chosen_complete sorted [] p ((h.same p).1 o)) [
    | inl z ↦ inl z
    | inr (inl e) ↦ absurd (ground (arith, e))
    | inr (inr found) ↦ inr found
  ],
)
