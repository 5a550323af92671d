-- ===== src/Node/Horizon/Breaker.antt =====
-- What the circuit breakers of network-node/src/horizon_client.rs do over the life of a client.
use axionvera_network.Base.{
  ℕ, zero, suc, ◌+◌, ◌≡◌, refl, ◌∙◌, inl, inr, Bool, true, false, ◌&&◌, Option, some, List, [], ◌∷◌,
  length, ltb, leb, ◌==◌, arith, Bool-cases, Option-cases,
}
use axionvera_network.Node.Horizon.{
  HorizonProvider, HorizonClient, CircuitBreakerState, ProviderStatus, Answer, closed, opened,
  half_open, is_opened, record_failure, record_success, get_elem?, modify_url, switch_provider,
  get_current_provider, execute_loop, record_provider_success, record_provider_failure,
  health_result, should_switch,
}
use axionvera_network.Node.Horizon.Requests.{switch_keeps_config}

abbrev pub is_half_open : CircuitBreakerState → Bool
is_half_open CircuitBreakerState.half_open = true
is_half_open CircuitBreakerState.closed = false
is_half_open CircuitBreakerState.opened = false

-- What a status may become: the provider is the same, and a breaker that is open stays so.
abbrev pub Ages : ProviderStatus → ProviderStatus → Type 0
Ages s s' =
    (s'.provider ≡ s.provider)
    × (is_opened s.circuit_state ≡ true → is_opened s'.circuit_state ≡ true)
    × (is_half_open s.circuit_state ≡ false → is_half_open s'.circuit_state ≡ false)

Ages-refl : (s : ProviderStatus) → Ages s s
Ages-refl s = (refl, (λ h. h), λ h. h)

failure-Ages : (now threshold : ℕ) (s : ProviderStatus) → Ages s (record_failure now threshold s)
unfolding record_failure
failure-Ages now threshold s = (refl, (λ h. ground arith), λ h. ground arith)

success-Ages : (now : ℕ) (s : ProviderStatus) → Ages s (record_success now s)
unfolding record_success
success-Ages now s = (refl, (λ h. ground arith), λ h. ground arith)

abbrev pub AllAge : List ProviderStatus → List ProviderStatus → Type 0
AllAge [] [] = Unit
AllAge [] (t ∷ ts) = ⊥
AllAge (s ∷ ss) [] = ⊥
AllAge (s ∷ ss) (t ∷ ts) = Ages s t × AllAge ss ts

AllAge-refl : (ss : List ProviderStatus) → AllAge ss ss
AllAge-refl [] = tt
AllAge-refl (s ∷ ss) = (Ages-refl s, AllAge-refl ss)

Ages-trans : (s t u : ProviderStatus) → Ages s t → Ages t u → Ages s u
Ages-trans s t u (same, o, h) (same', o', h') = (same' ∙ same, (λ x. o' (o x)), λ x. h' (h x))

AllAge-trans : (ss ts us : List ProviderStatus) → AllAge ss ts → AllAge ts us → AllAge ss us
AllAge-trans [] [] [] a b = tt
AllAge-trans [] [] (u ∷ us) a b = elim b [ ]
AllAge-trans [] (t ∷ ts) us a b = elim a [ ]
AllAge-trans (s ∷ ss) [] us a b = elim a [ ]
AllAge-trans (s ∷ ss) (t ∷ ts) [] a b = elim b [ ]
AllAge-trans (s ∷ ss) (t ∷ ts) (u ∷ us) (first, a) (first', b) =
    (Ages-trans s t u first first', AllAge-trans ss ts us a b)

modify_url-AllAge :
    (url : ℕ) (f : ProviderStatus → ProviderStatus) (ss : List ProviderStatus)
    → ((s : ProviderStatus) → Ages s (f s))
    → AllAge ss (modify_url url f ss)
unfolding modify_url
modify_url-AllAge url f [] ages = tt
modify_url-AllAge url f (s ∷ ss) ages = elim (Bool-cases (s.provider.url == url)) [
  | inl hit ↦ rw hit (ages s, AllAge-refl ss)
  | inr miss ↦ rw miss (Ages-refl s, modify_url-AllAge url f ss ages)
]

-- What is kept by the records of success and failure is kept by a request.
module _ (operation : ℕ → HorizonProvider → Option ℕ) (now : ℕ → ℕ)
    (P : List ProviderStatus → Type 0)
    (succeed : (t : ℕ) (p : HorizonProvider) (c : HorizonClient)
      → P c.providers
      → P (record_provider_success t p c).providers)
    (fail : (t : ℕ) (p : HorizonProvider) (c : HorizonClient)
      → P c.providers
      → P (record_provider_failure t p c).providers) where
  execute_keeps :
      (fuel attempts : ℕ) (c c' : HorizonClient) (answer : Answer)
      → execute_loop operation now fuel attempts c ≡ some (answer, c')
      → P c.providers
      → P c'.providers
  unfolding execute_loop
  execute_keeps zero attempts c c' answer e p = absurd (ground arith)
  execute_keeps (suc fuel) attempts c c' answer e p =
      let n = attempts + 1 in
      elim (Option-cases (get_current_provider c)) [
        | inl nobody ↦ elim (Bool-cases (leb (length c.config.providers) n)) [
          | inl last ↦ let same : c'.providers ≡ c.providers = ground arith in rw same p
          | inr early ↦ elim (Option-cases (switch_provider c)) [
            | inl stuck ↦ let same : c'.providers ≡ c.providers = ground arith in rw same p
            | inr (d, moved) ↦
                execute_keeps fuel n d c' answer (ground arith)
                  (rw ((switch_keeps_config c d moved).1) p)
          ]
        ]
        | inr (q, chosen) ↦ elim (Option-cases (operation n q)) [
          | inr (value, good) ↦
              let same : c'.providers ≡ (record_provider_success (now n) q c).providers =
                ground arith in
              rw same (succeed (now n) q c p)
          | inl bad ↦
              let failed = record_provider_failure (now n) q c in
              let after = fail (now n) q c p in
              elim (Bool-cases (should_switch q failed && ltb n (length c.config.providers))) [
                | inr over ↦
                    let same : c'.providers ≡ failed.providers = ground arith in rw same after
                | inl again ↦ elim (Option-cases (switch_provider failed)) [
                  | inl stuck ↦
                      let same : c'.providers ≡ failed.providers = ground arith in rw same after
                  | inr (d, moved) ↦
                      execute_keeps fuel n d c' answer (ground arith)
                        (rw ((switch_keeps_config failed d moved).1) after)
                ]
              ]
        ]
      ]

pub some_injective :
    (s t : ProviderStatus) → ◌≡◌ {A = Option ProviderStatus} (some s) (some t) → s ≡ t
some_injective s t e = cc

pub opened_lem : (state : CircuitBreakerState) → is_opened state ≡ true → state ≡ opened
opened_lem closed h = cc
opened_lem opened h = refl
opened_lem half_open h = cc

-- Requests and health checks, whatever their outcomes.
pub data Later (c : HorizonClient) : HorizonClient → Type 0 where
  here : Later c c
  requested :
      {d d' : HorizonClient} (operation : ℕ → HorizonProvider → Option ℕ) (now : ℕ → ℕ) (fuel : ℕ)
      (answer : Answer)
      → Later c d
      → execute_loop operation now fuel 0 d ≡ some (answer, d')
      → Later c d'
  checked :
      {d : HorizonClient} (now : ℕ) (is_healthy : Bool) (p : HorizonProvider)
      → Later c d
      → Later c (health_result now is_healthy p d)

pub Later-AllAge : {c c' : HorizonClient} → Later c c' → AllAge c.providers c'.providers
Later-AllAge {c} here = AllAge-refl c.providers
Later-AllAge {c} (requested {d} {d'} operation now fuel answer later e) =
    execute_keeps operation now (λ ss. AllAge c.providers ss)
      (λ t p b a.
        AllAge-trans c.providers b.providers (modify_url p.url (record_success t) b.providers) a
          (modify_url-AllAge p.url (record_success t) b.providers (success-Ages t)))
      (λ t p b a.
        let f = record_failure t b.config.circuit_breaker_failure_threshold in
        AllAge-trans c.providers b.providers (modify_url p.url f b.providers) a (
          modify_url-AllAge p.url f b.providers
            (failure-Ages t b.config.circuit_breaker_failure_threshold)))
      fuel 0 d d' answer e (Later-AllAge later)
Later-AllAge {c} (checked {d} now is_healthy p later) =
    let f =
      λ (s : ProviderStatus). record s { is_healthy = is_healthy; last_health_check = some now } in
    AllAge-trans c.providers d.providers (modify_url p.url f d.providers) (Later-AllAge later)
      (modify_url-AllAge p.url f d.providers (λ s. (refl, (λ h. h), λ h. h)))

pub get_elem?-AllAge :
    (i : ℕ) (s : ProviderStatus) (ss ts : List ProviderStatus)
    → AllAge ss ts
    → get_elem? ss i ≡ some s
    → (t : ProviderStatus) × (get_elem? ts i ≡ some t) × Ages s t
get_elem?-AllAge i s [] ts a e = absurd (ground arith)
get_elem?-AllAge i s (u ∷ ss) [] a e = elim a [ ]
get_elem?-AllAge zero s (u ∷ ss) (t ∷ ts) (first, a) e =
    (t, refl, rw (← some_injective u s e) first)
get_elem?-AllAge (suc i) s (u ∷ ss) (t ∷ ts) (first, a) e = get_elem?-AllAge i s ss ts a e
