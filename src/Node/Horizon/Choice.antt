-- ===== src/Node/Horizon/Choice.antt =====
-- Which provider network-node/src/horizon_client.rs chooses.
use native.Mathlib.Nat.{mod-add-mod, mod-eq_of_lt, mod-lt, add-mod_right}
use axionvera_network.Base.{
  ℕ, zero, suc, ◌+◌, ◌-◌, ◌%◌, ◌≤◌, ◌<◌, ◌≡◌, ◌≢◌, refl, sym, ap, ◌∙◌, inl, inr, not, ◌&&◌, Option,
  none, some, List, [], ◌∷◌, length, leb, ◌==◌, arith, Bool-cases, Option-cases,
}
use axionvera_network.Node.Horizon.{
  HorizonProvider, HorizonClient, ProviderStatus, able_at, can_execute_request, find_other,
  get_current_provider, find_next, switch_provider,
}

able_at_get :
    (ss : List ProviderStatus) (i : ℕ) (p : HorizonProvider) → able_at ss i ≡ some p → i < length ss
able_at_get [] i p e = absurd (ground arith)
able_at_get (s ∷ ss) zero p e = omega arith
able_at_get (s ∷ ss) (suc i) p e = omega (arith, able_at_get ss i p e)

-- The search from an index on, of which `offset` stands at the head of the list.
find_other_able :
    (current offset : ℕ) (ss : List ProviderStatus) (p : HorizonProvider)
    → find_other current offset ss ≡ some p
    → (i : ℕ) × (able_at ss i ≡ some p)
unfolding find_other
find_other_able current offset [] p e = absurd (ground arith)
find_other_able current offset (s ∷ ss) p e =
    elim (Bool-cases (not (offset == current) && can_execute_request s)) [
      | inl hit ↦ (0, ground arith)
      | inr miss ↦
          let (i, able) = find_other_able current (offset + 1) ss p (ground arith) in (suc i, able)
    ]

find_other-none :
    (current offset i : ℕ) (ss : List ProviderStatus)
    → find_other current offset ss ≡ none
    → offset + i ≢ current
    → able_at ss i ≡ none
unfolding find_other
find_other-none current offset i [] e apart = refl
find_other-none current offset zero (s ∷ ss) e apart = ground arith
find_other-none current offset (suc i) (s ∷ ss) e apart =
    find_other-none current (offset + 1) i ss (ground arith) (omega arith)

find_next_able :
    (ss : List ProviderStatus) (current rounds i j : ℕ)
    → find_next ss current rounds i ≡ some j
    → (p : HorizonProvider) × (able_at ss j ≡ some p)
unfolding find_next
find_next_able ss current zero i j e = absurd (ground arith)
find_next_able ss current (suc rounds) i j e =
    elim (Option-cases (able_at ss ((current + i + 1) % length ss))) [
      | inl miss ↦ find_next_able ss current rounds (i + 1) j (ground arith)
      | inr (p, hit) ↦ (p, ground arith)
    ]

find_next-none :
    (ss : List ProviderStatus) (current rounds i k : ℕ)
    → find_next ss current rounds i ≡ none
    → k < rounds
    → able_at ss ((current + (i + k) + 1) % length ss) ≡ none
unfolding find_next
find_next-none ss current zero i k e lt = absurd (omega arith)
find_next-none ss current (suc rounds) i zero e lt =
    let same : i + 0 ≡ i = omega arith in
    rw same (elim (Option-cases (able_at ss ((current + i + 1) % length ss))) [
      | inl miss ↦ miss
      | inr (p, hit) ↦ absurd (ground arith)
    ])
find_next-none ss current (suc rounds) i (suc k) e lt =
    let same : i + suc k ≡ (i + 1) + k = omega arith in
    rw same (
      find_next-none ss current rounds (i + 1) k
        (elim (Option-cases (able_at ss ((current + i + 1) % length ss))) [
          | inl miss ↦ ground arith
          | inr (p, hit) ↦ absurd (ground arith)
        ])
        (omega arith))

shift_mod : (current d n : ℕ) → (current + (0 + d) + 1) % n ≡ ((current + 1) % n + d) % n
shift_mod current d n =
    let e : current + (0 + d) + 1 ≡ (current + 1) + d = omega arith in
    ap (λ x. x % n) e ∙ sym (mod-add-mod (current + 1) n d)

-- Some round meets each index.
round_meets : (current n j : ℕ) → j < n → (k : ℕ) × (k < n) × ((current + (0 + k) + 1) % n ≡ j)
round_meets current n j lt =
    let c = (current + 1) % n in
    let below : c < n = mod-lt (current + 1) (omega arith) in
    elim (Bool-cases (leb c j)) [
      | inl low ↦
          let le : c ≤ j = ground arith in
          let sum : c + (j - c) ≡ j = omega arith in
          (j - c, omega arith, shift_mod current (j - c) n ∙ ap (λ x. x % n) sum ∙ mod-eq_of_lt lt)
      | inr high ↦
          let gt : j < c = ground arith in
          let sum : c + (j + n - c) ≡ j + n = omega arith in
          (
            j + n - c,
            omega arith,
            shift_mod current (j + n - c) n
                ∙ ap (λ x. x % n) sum
                ∙ add-mod_right j n
                ∙ mod-eq_of_lt lt,
          )
    ]

module _ (c : HorizonClient) where
  chosen_able :
      (p : HorizonProvider)
      → get_current_provider c ≡ some p
      → (i : ℕ) × (able_at c.providers i ≡ some p)
  unfolding get_current_provider
  chosen_able p e = elim (Option-cases (able_at c.providers c.current_provider_index)) [
    | inl miss ↦ find_other_able c.current_provider_index 0 c.providers p (ground arith)
    | inr (q, hit) ↦ (c.current_provider_index, ground arith)
  ]

  chosen_none : get_current_provider c ≡ none → (i : ℕ) → able_at c.providers i ≡ none
  unfolding get_current_provider
  chosen_none e i = elim (Option-cases (able_at c.providers c.current_provider_index)) [
    | inr (q, hit) ↦ absurd (ground arith)
    | inl miss ↦ elim (Bool-cases (i == c.current_provider_index)) [
      | inl same ↦ ground arith
      | inr apart ↦
          find_other-none c.current_provider_index 0 i c.providers (ground arith) (ground arith)
    ]
  ]

  switch_able :
      (c' : HorizonClient)
      → switch_provider c ≡ some c'
      → (p : HorizonProvider) × (able_at c'.providers c'.current_provider_index ≡ some p)
        × (c'.providers ≡ c.providers)
  unfolding switch_provider
  switch_able c' e =
      elim (Option-cases (find_next c.providers c.current_provider_index (length c.providers) 0)) [
        | inl miss ↦ absurd (ground arith)
        | inr (j, hit) ↦
            let (p, able) =
              find_next_able c.providers c.current_provider_index (length c.providers) 0 j hit in
            (p, ground arith, ground arith)
      ]

  switch_none : switch_provider c ≡ none → (i : ℕ) → able_at c.providers i ≡ none
  unfolding switch_provider
  switch_none e i = elim (Option-cases (able_at c.providers i)) [
    | inl miss ↦ miss
    | inr (p, hit) ↦
        let (k, lt, meets) =
          round_meets c.current_provider_index (length c.providers) i
            (able_at_get c.providers i p hit) in
        rw (← meets) (
          find_next-none c.providers c.current_provider_index (length c.providers) 0 k
            (ground arith) lt)
  ]

-- What a choice among the providers may answer.
abbrev pub IsChoice : List ProviderStatus → Option HorizonProvider → Type 0
IsChoice ss none = (i : ℕ) → able_at ss i ≡ none
IsChoice ss (some p) = (i : ℕ) × (able_at ss i ≡ some p)

-- What a switch may make of a client.
abbrev pub IsSwitch : HorizonClient → Option HorizonClient → Type 0
IsSwitch c none = (i : ℕ) → able_at c.providers i ≡ none
IsSwitch c (some c') =
    (p : HorizonProvider) × (able_at c'.providers c'.current_provider_index ≡ some p)
    × (c'.providers ≡ c.providers)

-- The provider that a request goes to can take it, and there is none only where no provider of
-- the client can. `switch_provider` moves the index to a provider that can take a request, and
-- fails only where none can.
pub choice_lem :
    (c : HorizonClient)
    → IsChoice c.providers (get_current_provider c) × IsSwitch c (switch_provider c)
choice_lem c = (
  elim (Option-cases (get_current_provider c)) [
    | inl nobody ↦ rw nobody (chosen_none c nobody)
    | inr (p, chosen) ↦ rw chosen (chosen_able c p chosen)
  ],
  elim (Option-cases (switch_provider c)) [
    | inl stuck ↦ rw stuck (switch_none c stuck)
    | inr (c', moved) ↦ rw moved (switch_able c c' moved)
  ],
)
