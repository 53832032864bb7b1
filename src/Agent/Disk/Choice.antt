-- ===== src/Agent/Disk/Choice.antt =====
-- The choice of a device does not depend on the order in which the map of counters is walked.
use homemonit.Base.{
  String, true, false, ◌≡◌, ◌↔◌, ◌⊎◌, inl, inr, refl, ◌∙◌, ap, sym, subst, some, List, [], ◌∷◌,
  ◌++◌, ◌==◌, string_key, if◌then◌else◌, Occurs, less_trans, less_irrefl, less-total, Bool-cases,
  arith,
}
use mathlib.Core.List.{append_assoc, append-nil}
use homemonit.Agent.Disk.{
  IoCountersStat, IoMatchCandidate, normalize_device_name, candidate, beats, best_of, is_exact,
  is_related, pick, find_from, find_io_device,
}

beats_trans : (a b c : IoMatchCandidate) → beats a b ≡ true → beats b c ≡ true → beats a c ≡ true
unfolding beats
beats_trans a b c h k = ground (arith, less_trans a.name b.name c.name)

beats_irrefl : (a : IoMatchCandidate) → beats a a ≡ false
unfolding beats
beats_irrefl a = ground (arith, less_irrefl a.name)

beats-total : (a b : IoMatchCandidate) → beats a b ≡ false → beats b a ≡ false → a.name ≡ b.name
unfolding beats
beats-total a b h k = ground (arith, less-total a.name b.name)

-- A candidate of a collection that none of the collection beats.
record IsBest (best : IoMatchCandidate) (among : IoMatchCandidate → Type 0) : Type 0 where
  pub from : among best
  pub top : (c : IoMatchCandidate) → among c → beats c best ≡ false

IsBest-step :
    (c best : IoMatchCandidate) (seen : IoMatchCandidate → Type 0)
    → IsBest best seen
    → IsBest (if beats c best then c else best) (λ x. (x ≡ c) ⊎ seen x)
IsBest-step c best seen b = elim (Bool-cases (beats c best)) [
  | inl wins ↦ rw wins (record {
    from = inl refl;
    top = λ d o. elim o [
      | inl e ↦ rw e (beats_irrefl c)
      | inr o ↦ ground (arith, wins, b.top d o, beats_trans d c best)
    ];
  })
  | inr loses ↦
      rw loses (record {
        from = inr b.from;
        top = λ d o. elim o [ inl e ↦ rw e loses | inr o ↦ b.top d o ];
      })
]

IsBest-weaken :
    (best : IoMatchCandidate) (m n : IoMatchCandidate → Type 0)
    → ((c : IoMatchCandidate) → m c ↔ n c)
    → IsBest best m
    → IsBest best n
IsBest-weaken best m n same b = record {
  from = (same best).0 b.from;
  top = λ c o. b.top c ((same c).1 o);
}

best_of-IsBest :
    (best : IoMatchCandidate) (candidates : List IoMatchCandidate)
    (seen : IoMatchCandidate → Type 0)
    → IsBest best seen
    → IsBest (best_of best candidates) (λ x. Occurs x candidates ⊎ seen x)
unfolding best_of
best_of-IsBest best [] seen b =
    IsBest-weaken best _ _ (λ c. (λ o. inr o, λ o. elim o [ inl e ↦ absurd e | inr o ↦ o ])) b
best_of-IsBest best (c ∷ candidates) seen b =
    let next = if beats c best then c else best in
    IsBest-weaken (best_of next candidates) _ _
      (λ x. (
        λ o. elim o [
          | inl o ↦ inl (inr o)
          | inr o ↦ elim o [ inl e ↦ inl (inl e) | inr s ↦ inr s ]
        ],
        λ o. elim o [
          | inl o ↦ elim o [ inl e ↦ inr (inl e) | inr o ↦ inl o ]
          | inr s ↦ inr (inr s)
        ],
      ))
      (best_of-IsBest next candidates (λ x. (x ≡ c) ⊎ seen x) (IsBest-step c best seen b))

IsBest-unique :
    (a b : IoMatchCandidate) (m n : IoMatchCandidate → Type 0)
    → ((c : IoMatchCandidate) → m c ↔ n c)
    → IsBest a m
    → IsBest b n
    → a.name ≡ b.name
IsBest-unique a b m n same p q =
    beats-total a b (q.top a ((same a).0 p.from)) (p.top b ((same b).1 q.from))

pick-best :
    (c : IoMatchCandidate) (candidates : List IoMatchCandidate)
    → IsBest (best_of c candidates) (λ x. Occurs x (c ∷ candidates))
pick-best c candidates =
    IsBest-weaken (best_of c candidates) _ _
      (λ x. (
        λ o. elim o [ inl o ↦ inr o | inr e ↦ inl e ],
        λ o. elim o [ inl e ↦ inr e | inr o ↦ inl o ],
      ))
      (best_of-IsBest c candidates (λ x. x ≡ c)
        (record { from = refl; top = λ d e. rw e (beats_irrefl c) }))

-- The same candidates, in whatever order and however often, give the same name.
pick-same :
    (xs ys : List IoMatchCandidate)
    → ((c : IoMatchCandidate) → Occurs c xs ↔ Occurs c ys)
    → pick xs ≡ pick ys
unfolding pick
pick-same [] [] same = refl
pick-same [] (y ∷ ys) same = absurd ((same y).1 (inl refl))
pick-same (x ∷ xs) [] same = absurd ((same x).0 (inl refl))
pick-same (x ∷ xs) (y ∷ ys) same =
    ap some (IsBest-unique (best_of x xs) (best_of y ys) _ _ same (pick-best x xs) (pick-best y ys))

related : String → List IoCountersStat → List IoMatchCandidate
related fs [] = []
related fs (d ∷ devices) =
    let rest = related fs devices in if is_related fs d then candidate d ∷ rest else rest

-- A device of the map that matches exactly.
pub record Exact (fs : String) (devices : List IoCountersStat) (d : IoCountersStat) : Type 0 where
  pub listed : Occurs d devices
  pub matches : is_exact fs d ≡ true

true-ne-false : true ≡ false → ⊥
true-ne-false e = cc

find_from-cases :
    (fs : String) (devices : List IoCountersStat) (cs : List IoMatchCandidate)
    → ((d : IoCountersStat) × Exact fs devices d × (find_from fs devices cs ≡ some d.name))
      ⊎ (((d : IoCountersStat) → Occurs d devices → is_exact fs d ≡ false)
          × (find_from fs devices cs ≡ pick (cs ++ related fs devices)))
unfolding find_from related
find_from-cases fs [] cs = inr (λ d o. absurd o, ap pick (sym (append-nil cs)))
find_from-cases fs (d ∷ devices) cs =
    let next = if is_related fs d then cs ++ (candidate d ∷ []) else cs in
    elim (Bool-cases (is_exact fs d)) [
      | inl e ↦ inl (d, record { listed = inl refl; matches = e }, ground (arith, e))
      | inr e ↦ elim (find_from-cases fs devices next) [
        | inl (d', x, eq) ↦
            inl (d', record { listed = inr x.listed; matches = x.matches }, ground (arith, e, eq))
        | inr (apart, eq) ↦ inr (
          λ d' o. elim o [ inl same ↦ rw same e | inr o ↦ apart d' o ],
          elim (Bool-cases (is_related fs d)) [
            | inl r ↦
                ground (arith, e, eq, r, append_assoc cs (candidate d ∷ []) (related fs devices))
            | inr r ↦ ground (arith, e, eq, r)
          ],
        )
      ]
    ]

related-hit :
    (fs : String) (d : IoCountersStat) (devices : List IoCountersStat)
    → is_related fs d ≡ true
    → related fs (d ∷ devices) ≡ candidate d ∷ related fs devices
unfolding related
related-hit fs d devices r = rw r refl

related-miss :
    (fs : String) (d : IoCountersStat) (devices : List IoCountersStat)
    → is_related fs d ≡ false
    → related fs (d ∷ devices) ≡ related fs devices
unfolding related
related-miss fs d devices r = rw r refl

Occurs-related :
    (fs : String) (devices : List IoCountersStat) (c : IoMatchCandidate)
    → Occurs c (related fs devices)
    → (d : IoCountersStat) × Occurs d devices × (is_related fs d ≡ true) × (c ≡ candidate d)
unfolding related
Occurs-related fs [] c o = absurd o
Occurs-related fs (d ∷ devices) c o = elim (Bool-cases (is_related fs d)) [
  | inl r ↦ elim (subst (Occurs c) (related-hit fs d devices r) o) [
    | inl e ↦ (d, inl refl, r, e)
    | inr o' ↦ let (d', l, r', e) = Occurs-related fs devices c o' in (d', inr l, r', e)
  ]
  | inr r ↦
      let (d', l, r', e) =
        Occurs-related fs devices c (subst (Occurs c) (related-miss fs d devices r) o) in
      (d', inr l, r', e)
]

related-Occurs :
    (fs : String) (devices : List IoCountersStat) (d : IoCountersStat)
    → Occurs d devices
    → is_related fs d ≡ true
    → Occurs (candidate d) (related fs devices)
related-Occurs fs [] d o r = absurd o
related-Occurs fs (d' ∷ devices) d (inl e) r =
    rw (related-hit fs d' devices (rw (← e) r)) (inl (ap candidate e))
related-Occurs fs (d' ∷ devices) d (inr o) r = elim (Bool-cases (is_related fs d')) [
  | inl r' ↦ rw (related-hit fs d' devices r') (inr (related-Occurs fs devices d o r))
  | inr r' ↦ rw (related-miss fs d' devices r') (related-Occurs fs devices d o r)
]

-- The same devices, walked in two orders.
abbrev pub SameDevices : List IoCountersStat → List IoCountersStat → Type 0
SameDevices xs ys = (d : IoCountersStat) → Occurs d xs ↔ Occurs d ys

related-same :
    (fs : String) (xs ys : List IoCountersStat)
    → SameDevices xs ys
    → (c : IoMatchCandidate) → Occurs c (related fs xs)
    → Occurs c (related fs ys)
related-same fs xs ys same c o =
    let (d, l, r, e) = Occurs-related fs xs c o in
    subst (λ x. Occurs x (related fs ys)) (sym e) (related-Occurs fs ys d ((same d).0 l) r)

SameDevices-sym : (xs ys : List IoCountersStat) → SameDevices xs ys → SameDevices ys xs
SameDevices-sym xs ys same d = ((same d).1, (same d).0)

find_from-same :
    (fs : String) (xs ys : List IoCountersStat)
    → SameDevices xs ys
    → ((d e : IoCountersStat) → Exact fs xs d → Exact fs xs e → d.name ≡ e.name)
    → find_from fs xs [] ≡ find_from fs ys []
find_from-same fs xs ys same one = elim (find_from-cases fs xs []) [
  | inl (d, x, eq) ↦ elim (find_from-cases fs ys []) [
    | inl (e, y, eq') ↦
        let y' : Exact fs xs e = record { listed = (same e).1 y.listed; matches = y.matches } in
        eq ∙ ap some (one d e x y') ∙ sym eq'
    | inr (apart, eq') ↦ absurd (true-ne-false (sym x.matches ∙ apart d ((same d).0 x.listed)))
  ]
  | inr (apart, eq) ↦ elim (find_from-cases fs ys []) [
    | inl (e, y, eq') ↦ absurd (true-ne-false (sym y.matches ∙ apart e ((same e).1 y.listed)))
    | inr (apart', eq') ↦
        eq
        ∙ pick-same (related fs xs) (related fs ys) (λ c.
          (related-same fs xs ys same c, related-same fs ys xs (SameDevices-sym xs ys same) c))
        ∙ sym eq'
  ]
]

-- The device that is found does not depend on the order in which the counters are walked, if all
-- devices whose name or label is the normalised text have one name.
pub find_io_device-order :
    (filesystem : String) (xs ys : List IoCountersStat)
    → SameDevices xs ys
    → ((d e : IoCountersStat)
        → Exact (normalize_device_name filesystem) xs d
        → Exact (normalize_device_name filesystem) xs e
        → d.name ≡ e.name)
    → find_io_device filesystem xs ≡ find_io_device filesystem ys
unfolding find_io_device
find_io_device-order filesystem xs ys same one =
    let name = normalize_device_name filesystem in
    elim (Bool-cases (name == "")) [
      | inl e ↦ rw e refl
      | inr e ↦ rw e (find_from-same name xs ys same one)
    ]
