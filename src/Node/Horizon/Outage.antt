-- ===== src/Node/Horizon/Outage.antt =====
-- What becomes of the providers of network-node/src/horizon_client.rs whose circuit breakers are open.
use axionvera_network.Base.{
  ℕ, zero, suc, ◌+◌, ◌%◌, ◌≡◌, refl, inl, inr, false, Option, none, some, List, [], ◌∷◌, All,
  length, leb, arith, Bool-cases,
}
use axionvera_network.Node.Horizon.{
  HorizonProvider, HorizonClient, ProviderStatus, Answer, RequestError, opened, can_execute_request,
  get_elem?, able_at, find_other, find_next, switch_provider, get_current_provider, execute_loop,
}
use axionvera_network.Node.Horizon.Breaker.{
  AllAge, Later, Later-AllAge, opened_lem, get_elem?-AllAge,
}

-- A provider whose circuit breaker is open stays in its place with the breaker open, and takes no
-- request, whatever requests and health checks follow and however much time goes by.
pub opened_forever :
    {c c' : HorizonClient} (i : ℕ) (s : ProviderStatus)
    → Later c c'
    → get_elem? c.providers i ≡ some s
    → s.circuit_state ≡ opened
    → (s' : ProviderStatus) × (get_elem? c'.providers i ≡ some s')
      × (s'.provider ≡ s.provider)
      × (s'.circuit_state ≡ opened)
      × (can_execute_request s' ≡ false)
opened_forever {c} {c'} i s later found open_now =
    let (t, there, (same, stays, _)) =
      get_elem?-AllAge i s c.providers c'.providers (Later-AllAge later) found in
    let state : t.circuit_state ≡ opened = opened_lem t.circuit_state (stays (rw open_now refl)) in
    (t, there, same, state, rw (state, can_execute_request) refl)

abbrev pub AllOpened : List ProviderStatus → Type 0
AllOpened = All (λ s. s.circuit_state ≡ opened)

AllAge-AllOpened : (ss ts : List ProviderStatus) → AllAge ss ts → AllOpened ss → AllOpened ts
AllAge-AllOpened [] [] a all = tt
AllAge-AllOpened [] (t ∷ ts) a all = elim a [ ]
AllAge-AllOpened (s ∷ ss) [] a all = elim a [ ]
AllAge-AllOpened (s ∷ ss) (t ∷ ts) ((same, stays, _), a) (first, all) =
    (opened_lem t.circuit_state (stays (rw first refl)), AllAge-AllOpened ss ts a all)

able_at_opened : (ss : List ProviderStatus) (i : ℕ) → AllOpened ss → able_at ss i ≡ none
able_at_opened [] i a = refl
able_at_opened (s ∷ ss) zero (first, a) = rw (first, can_execute_request) refl
able_at_opened (s ∷ ss) (suc i) (first, a) = able_at_opened ss i a

find_other_opened :
    (current i : ℕ) (ss : List ProviderStatus) → AllOpened ss → find_other current i ss ≡ none
unfolding find_other
find_other_opened current i [] a = refl
find_other_opened current i (s ∷ ss) (first, a) =
    ground (arith, find_other_opened current (i + 1) ss a)

find_next_opened :
    (ss : List ProviderStatus) (current rounds i : ℕ)
    → AllOpened ss
    → find_next ss current rounds i ≡ none
unfolding find_next
find_next_opened ss current zero i a = refl
find_next_opened ss current (suc rounds) i a = ground (
  arith,
  able_at_opened ss ((current + i + 1) % length ss) a,
  find_next_opened ss current rounds (i + 1) a,
)

-- Once every circuit breaker of a client is open, every request fails without a call of any
-- provider, whatever these would answer, and leaves the client as it is; so does every request
-- after any further requests and health checks and after any time.
pub outage_lasts :
    {c c' : HorizonClient} (operation : ℕ → HorizonProvider → Option ℕ) (now : ℕ → ℕ) (fuel : ℕ)
    → AllOpened c.providers
    → Later c c'
    → (e : RequestError) × (execute_loop operation now (suc fuel) 0 c'
        ≡ some (Answer.failure e, c'))
unfolding execute_loop get_current_provider switch_provider
outage_lasts {c} {c'} operation now fuel all later =
    let now_open = AllAge-AllOpened c.providers c'.providers (Later-AllAge later) all in
    let nobody = able_at_opened c'.providers c'.current_provider_index now_open in
    let others = find_other_opened c'.current_provider_index 0 c'.providers now_open in
    let stuck =
      find_next_opened c'.providers c'.current_provider_index (length c'.providers) 0 now_open in
    elim (Bool-cases (leb (length c'.config.providers) 1)) [
      | inl last ↦ (RequestError.no_healthy_provider, ground arith)
      | inr early ↦ (RequestError.no_fallback, ground arith)
    ]
