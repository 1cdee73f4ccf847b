-- ===== src/Rib/Reach.antt =====
-- sdplane/rib_manager.c: what holds of the published information base after any messages.
use mathlib.Core.Path.{subst}
use nettlp_dpdk.Prelude.{
  ℕ, zero, suc, ◌%◌, ◌^◌, ◌<◌, ◌≡◌, refl, sym, ap, ◌∙◌, ◌⊎◌, inl, inr, Bool, true, false, Option,
  none, some, List, [], ◌∷◌, ◌++◌, arith, ltb, done, abort, Bool-cases, done_inj, bind-done,
  abort-ne-done, if◌then◌else◌, take, replicate, get_or,
}
use nettlp_dpdk.Rib.{PortQueue, LcoreQconf, Info, Env, Manager, check, collect_queues, polled}
use nettlp_dpdk.Rib.Messages.{
  Message, port_status, eth_link, qconf, qconf2, txrx_desc, unknown, idle, zero_info, create,
  replace, update_port_status, set_qconf, set_qconf2, set_desc, publish_checked, process_message,
  rib_manager,
}
use nettlp_dpdk.Rib.Sorting.{copies, SortsRight}
use nettlp_dpdk.Rib.Contiguous.{IsContiguous, check_queues-counts}
use nettlp_dpdk.Rib.Setup.{check-some, check-serves}

-- The lcores of a rib that was set up: lcore_size as a message leaves it.
abbrev lcores : Env → ℕ
lcores env = env.lcore_count % 2 ^ 16 % 2 ^ 8

-- Every queue in the list of an lcore has both its rings.
abbrev pub HasRings : (ℕ → ℕ → Bool) → (ℕ → ℕ → Bool) → List PortQueue → Type 0
HasRings up dn xs = (p q : ℕ) → 0 < copies p q xs → (up p q ≡ true) × (dn p q ≡ true)

-- What the manager keeps of an information base, by the fields that it is about.
record IsSound (env : Env) (up dn : ℕ → ℕ → Bool) (size : ℕ) (qs : List LcoreQconf) : Type 0 where
  contiguous : IsContiguous env.max_ports (collect_queues (take size qs))
  ringed : HasRings up dn (collect_queues qs)
  sized : (size ≡ lcores env) ⊎ (collect_queues qs ≡ [])

abbrev InfoIsSound : Env → (ℕ → ℕ → Bool) → (ℕ → ℕ → Bool) → Info → Type 0
InfoIsSound env up dn info = IsSound env up dn info.lcore_size info.lcore_qconf

collect_queues-idle : (n : ℕ) → collect_queues (replicate n idle) ≡ []
unfolding collect_queues
collect_queues-idle zero = refl
collect_queues-idle (suc n) = collect_queues-idle n

append-nil {ℓ} : {A : Type ℓ} (xs ys : List A) → xs ++ ys ≡ [] → (xs ≡ []) × (ys ≡ [])
append-nil [] ys h = (refl, h)
append-nil (x ∷ xs) ys h = cc

collect_queues-take_nil :
    (n : ℕ) (qs : List LcoreQconf) → collect_queues qs ≡ [] → collect_queues (take n qs) ≡ []
unfolding collect_queues
collect_queues-take_nil zero qs h = refl
collect_queues-take_nil (suc n) [] h = refl
collect_queues-take_nil (suc n) (q ∷ qs) h =
    let (none_here, none_behind) = append-nil (take q.nrxq q.rx_queue_list) (collect_queues qs) h in
    rw (none_here) (collect_queues-take_nil n qs none_behind)

no_queues-IsContiguous : (ports : ℕ) (xs : List PortQueue) → xs ≡ [] → IsContiguous ports xs
no_queues-IsContiguous ports xs h = (λ p. 0, λ p le. refl, λ p q. rw h (ground arith))

no_queues-ringed : (up dn : ℕ → ℕ → Bool) (xs : List PortQueue) → xs ≡ [] → HasRings up dn xs
no_queues-ringed up dn xs h p q lt = absurd (omega (arith, ap (copies p q) h))

zero_sound : (env : Env) (up dn : ℕ → ℕ → Bool) → InfoIsSound env up dn (zero_info env)
zero_sound env up dn = record {
  contiguous =
      no_queues-IsContiguous env.max_ports (collect_queues []) (unfold collect_queues in refl);
  ringed = no_queues-ringed up dn _ (collect_queues-idle env.max_lcore);
  sized = inr (collect_queues-idle env.max_lcore);
}

-- A status update gives the number of lcores again.
resized :
    (env : Env) (up dn : ℕ → ℕ → Bool) (size : ℕ) (qs : List LcoreQconf)
    → IsSound env up dn size qs
    → IsSound env up dn (lcores env) qs
resized env up dn size qs s = elim s.sized [
  | inl e ↦ subst (λ k. IsSound env up dn k qs) e s
  | inr none_polled ↦ record {
    contiguous =
        no_queues-IsContiguous env.max_ports _
          (collect_queues-take_nil (lcores env) qs none_polled);
    ringed = s.ringed;
    sized = inl refl;
  }
]

-- What is published, where it is not the empty struct in between, is sound.
abbrev Inv : Env → Manager → Type 0
Inv env m = (info : Info) → m.rib ≡ some (some info) → InfoIsSound env m.ring_up m.ring_dn info

base_sound :
    (env : Env) (up dn : ℕ → ℕ → Bool) (o : Option (Option Info))
    → ((info : Info) → o ≡ some (some info) → InfoIsSound env up dn info)
    → InfoIsSound env up dn (create env o)
unfolding create
base_sound env up dn none h = zero_sound env up dn
base_sound env up dn (some none) h = zero_sound env up dn
base_sound env up dn (some (some info)) h = h info refl

replace-Inv :
    (env : Env) (m : Manager) (info : Info)
    → InfoIsSound env m.ring_up m.ring_dn info
    → Inv env (replace (some info) m)
unfolding replace
replace-Inv env m info s info' e =
    subst (λ i. InfoIsSound env m.ring_up m.ring_dn i) (published_inj e) s
  where
    published_inj : {i j : Info} → some (some i) ≡ some (some j) → i ≡ j
    published_inj h = cc

publish_checked-Inv :
    (env : Env) (served : Bool) (info : Info) (m m' : Manager)
    → SortsRight env
    → Inv env m
    → info.lcore_size ≡ lcores env
    → publish_checked env served info m ≡ done m'
    → Inv env m'
unfolding publish_checked replace polled
publish_checked-Inv env served info m m' law inv size h =
    let (o, checked, h₁) = bind-done (check env info m) _ h in from o checked h₁
  where
    accepted-sound :
        (m₁ : Manager)
        → check env info m ≡ done (some m₁)
        → InfoIsSound env m₁.ring_up m₁.ring_dn info
    accepted-sound m₁ checked =
        let (n, counted, applied) = check-some env info m m₁ checked in
        let (calls, called, configured, rings, same_rib, same_count) =
          check-serves env info m m₁ law checked in
        let (out, count) = check_queues-counts env info n law counted in
        record { contiguous = (λ p. get_or n p 0, out, count); ringed = rings; sized = inl size }

    from :
        (o : Option Manager)
        → check env info m ≡ done o
        → (elim o [
          | none ↦ done m
          | some m₁ ↦ done (replace (some info) (if served then replace none m₁ else m₁))
        ])
          ≡ done m'
        → Inv env m'
    from none checked h₁ = subst (Inv env) (done_inj h₁) inv
    from (some m₁) checked h₁ =
        subst (Inv env) (done_inj h₁)
          (elim served as (λ k. Inv env (replace (some info) (if k then replace none m₁ else m₁))) [
            | true ↦ replace-Inv env (replace none m₁) info (accepted-sound m₁ checked)
            | false ↦ replace-Inv env m₁ info (accepted-sound m₁ checked)
          ])

-- Every message keeps the invariant.
process_message-Inv :
    (env : Env) (served : Bool) (msg : Message) (m m' : Manager)
    → SortsRight env
    → Inv env m
    → process_message env served msg m ≡ done m'
    → Inv env m'
unfolding process_message update_port_status set_qconf set_qconf2 set_desc
process_message-Inv env served port_status m m' law inv h =
    let old = base_sound env m.ring_up m.ring_dn m.rib inv in
    subst (Inv env) (done_inj h) (replace-Inv env m _ (resized env m.ring_up m.ring_dn _ _ old))
process_message-Inv env served eth_link m m' law inv h =
    subst (Inv env) (done_inj h)
      (replace-Inv env m _ (base_sound env m.ring_up m.ring_dn m.rib inv))
process_message-Inv env served unknown m m' law inv h =
    subst (Inv env) (done_inj h)
      (replace-Inv env m _ (base_sound env m.ring_up m.ring_dn m.rib inv))
process_message-Inv env served (qconf msg) m m' law inv h =
    publish_checked-Inv env served (set_qconf env msg (create env m.rib)) m m' law inv refl h
process_message-Inv env served qconf2 m m' law inv h =
    publish_checked-Inv env served (set_qconf2 env (create env m.rib)) m m' law inv (omega arith) h
process_message-Inv env served (txrx_desc portid rxd txd) m m' law inv h =
    elim (Bool-cases (ltb portid env.max_ports)) [
      | inl room ↦
          let info = set_desc portid rxd txd (create env m.rib) in
          let e : process_message env served (txrx_desc portid rxd txd) m
              ≡ done (replace (some info) m) =
            rw (process_message, room) refl in
          subst (Inv env) (done_inj (sym e ∙ h))
            (replace-Inv env m info (base_sound env m.ring_up m.ring_dn m.rib inv))
      | inr over ↦
          let e : process_message env served (txrx_desc portid rxd txd) m ≡ abort =
            rw (process_message, over) refl in
          absurd (abort-ne-done (sym e ∙ h))
    ]

rib_manager-Inv :
    (env : Env) (msgs : List (Bool × Message)) (m m' : Manager)
    → SortsRight env
    → Inv env m
    → rib_manager env msgs m ≡ done m'
    → Inv env m'
unfolding rib_manager
rib_manager-Inv env [] m m' law inv h = subst (Inv env) (done_inj h) inv
rib_manager-Inv env ((served, msg) ∷ msgs) m m' law inv h =
    let (m₁, first, rest) = bind-done (process_message env served msg m) _ h in
    rib_manager-Inv env msgs m₁ m' law (process_message-Inv env served msg m m₁ law inv first) rest

-- Whatever messages the manager has handled since nothing was published, malloc for the empty struct
-- serving or not, the information that it publishes is such that each port's polled queues are
-- numbered from 0 on without a gap, each polled once, and every queue in an lcore's list has its two
-- rings. qsort sorts.
pub rib_manager_sound :
    (env : Env) (msgs : List (Bool × Message)) (m m' : Manager) (info : Info)
    → SortsRight env
    → m.rib ≡ none
    → rib_manager env msgs m ≡ done m'
    → m'.rib ≡ some (some info)
    → IsContiguous env.max_ports (polled info)
      × HasRings m'.ring_up m'.ring_dn (collect_queues info.lcore_qconf)
unfolding polled
rib_manager_sound env msgs m m' info law start h published =
    let s = rib_manager-Inv env msgs m m' law (λ i e. cc) h info published in
    (s.contiguous, s.ringed)
