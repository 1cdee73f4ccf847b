-- ===== src/Threads/Slots.antt =====
-- thread_register never takes a slot in use, and what it registers is found.
use nettlp_dpdk.Prelude.{
  ℕ, zero, suc, ◌+◌, ◌≤◌, ◌<◌, ◌≡◌, ◌≢◌, refl, sym, ap, ◌∙◌, ◌⊎◌, inl, inr, Bool, true, Option,
  none, some, List, [], ◌∷◌, arith, ltb, ◌==◌, if◌then◌else◌, set, take, length, get_or, lt→ltb,
  le→ltb, length-set, length-take, get_or-take, Bool-cases, ==→eq, ==→ne, ltb→lt, ltb→le, eq→==,
}
use nettlp_dpdk.Threads.{
  Info, Registry, limit, empty_info, find_free, choose, register, find_last, lookup,
}

-- Every slot of the list has a function.
abbrev pub AllUsed : List Info → Type 0
AllUsed [] = Unit
AllUsed (t ∷ ts) = (t.func ≢ 0) × AllUsed ts

find_free_cases :
    (ts : List Info) (i : ℕ)
    → ((find_free ts i ≡ none) × AllUsed ts)
      ⊎ ((k : ℕ) × (find_free ts i ≡ some (i + k))
          × (k < length ts)
          × ((get_or ts k empty_info).func ≡ 0))
unfolding find_free
find_free_cases [] i = inl (refl, tt)
find_free_cases (t ∷ ts) i = elim (Bool-cases (t.func == 0)) [
  | inl free ↦ inr (0, rw free (ap some (omega arith)), omega arith, ==→eq t.func 0 free)
  | inr used ↦ elim (find_free_cases ts (i + 1)) [
    | inl (miss, all) ↦ inl (rw used miss, (==→ne t.func 0 used, all))
    | inr (k, hit, lt, free) ↦ inr (suc k, rw used (hit ∙ ap some (omega arith)), omega arith, free)
  ]
]

-- The table has its 16 slots, of which `size` were used so far.
pub record IsValid (r : Registry) : Type 0 where
  pub slots : length r.threads ≡ limit
  pub within : r.size ≤ limit

choose_free :
    (r : Registry) (k : ℕ)
    → find_free (take r.size r.threads) 0 ≡ some k
    → choose r ≡ some (k, r.size)
unfolding choose
choose_free r k hit = rw (choose, hit) refl

choose_next :
    (r : Registry)
    → find_free (take r.size r.threads) 0 ≡ none
    → r.size < limit
    → choose r ≡ some (r.size, r.size + 1)
unfolding choose
choose_next r miss room =
    rw (choose, miss, lt→ltb r.size limit room) (ap (λ n. some (r.size, n)) (omega arith))

choose_full :
    (r : Registry) → find_free (take r.size r.threads) 0 ≡ none → limit ≤ r.size → choose r ≡ none
unfolding choose
choose_full r miss full = rw (choose, miss, le→ltb r.size limit full) refl

register-some :
    (info : Info) (r : Registry) (k n : ℕ)
    → choose r ≡ some (k, n)
    → register info r ≡ (some k, record r { size = n; threads = set r.threads k info })
unfolding register
register-some info r k n e = rw (register, e) refl

register-none : (info : Info) (r : Registry) → choose r ≡ none → register info r ≡ (none, r)
unfolding register
register-none info r e = rw (register, e) refl

-- Registering a thread on a valid table either fails and changes nothing, where all 16 slots have a
-- function, or writes one slot, which had none or was not used before: no thread loses its slot, and
-- the table stays valid.
pub register-slot :
    (info : Info) (r : Registry)
    → IsValid r
    → ((register info r ≡ (none, r)) × (r.size ≡ limit) × AllUsed (take r.size r.threads))
      ⊎ ((k : ℕ) × (r' : Registry) × (register info r ≡ (some k, r'))
          × (r'.threads ≡ set r.threads k info)
          × (k < r'.size)
          × IsValid r'
          × (((k < r.size) × ((get_or r.threads k empty_info).func ≡ 0)) ⊎ (k ≡ r.size)))
register-slot info r h = elim (find_free_cases (take r.size r.threads) 0) [
  | inr (k, hit, lt, free) ↦
      let used : k < r.size = omega (arith, length-take r.size r.threads) in
      inr (
        k,
        record r { threads = set r.threads k info },
        register-some info r k r.size (choose_free r k (hit ∙ ap some (omega arith))),
        refl,
        used,
        record { slots = length-set r.threads k info ∙ h.slots; within = h.within },
        inl (used, sym (ap (λ t. t.func) (get_or-take r.size k r.threads empty_info used)) ∙ free),
      )
  | inl (miss, all) ↦ elim (Bool-cases (ltb r.size limit)) [
    | inl room ↦ inr (
      r.size,
      record r { size = r.size + 1; threads = set r.threads r.size info },
      register-some info r r.size (r.size + 1) (choose_next r miss (ltb→lt r.size limit room)),
      refl,
      omega arith,
      record {
        slots = length-set r.threads r.size info ∙ h.slots;
        within = omega (arith, ltb→lt r.size limit room);
      },
      inr refl,
    )
    | inr full ↦
        let none_left = ltb→le r.size limit full in
        inl (
          register-none info r (choose_full r miss none_left),
          omega (arith, none_left, h.within),
          all,
        )
  ]
]

-- What the loop of a lookup gives: what it had, or a later match.
find_last_cases :
    (test : Info → Bool) (ts : List Info) (i : ℕ) (ret : Option ℕ)
    → (find_last test ts i ret ≡ ret)
      ⊎ ((j : ℕ) × (find_last test ts i ret ≡ some (i + j))
          × (j < length ts)
          × (test (get_or ts j empty_info) ≡ true))
unfolding find_last
find_last_cases test [] i ret = inl refl
find_last_cases test (t ∷ ts) i ret =
    elim (find_last_cases test ts (i + 1) (if test t then some i else ret)) [
      | inr (j, e, lt, hit) ↦ inr (suc j, e ∙ ap some (omega arith), omega arith, hit)
      | inl same ↦ elim (Bool-cases (test t)) [
        | inl hit ↦ inr (0, same ∙ rw hit (ap some (omega arith)), omega arith, hit)
        | inr miss ↦ inl (same ∙ rw miss refl)
      ]
    ]

-- The last match of a list with a match at some place is at that place or behind it.
find_last-ge :
    (test : Info → Bool) (ts : List Info) (i k : ℕ) (ret : Option ℕ)
    → k < length ts
    → test (get_or ts k empty_info) ≡ true
    → (j : ℕ) × (find_last test ts i ret ≡ some (i + j))
      × (k ≤ j)
      × (j < length ts)
      × (test (get_or ts j empty_info) ≡ true)
unfolding find_last
find_last-ge test [] i k ret lt hit = absurd (omega arith)
find_last-ge test (t ∷ ts) i (suc k) ret lt hit =
    let (j, e, le, lt', hit') =
      find_last-ge test ts (i + 1) k (if test t then some i else ret) (omega arith) hit in
    (suc j, e ∙ ap some (omega arith), omega arith, omega arith, hit')
find_last-ge test (t ∷ ts) i zero ret lt hit = elim (find_last_cases test ts (i + 1) (some i)) [
  | inl same ↦ (0, rw hit (same ∙ ap some (omega arith)), omega arith, omega arith, hit)
  | inr (j, e, lt', hit') ↦
      (suc j, rw hit (e ∙ ap some (omega arith)), omega arith, omega arith, hit')
]

-- A thread in a slot in use is found by its function: thread_lookup gives its slot, or a later one
-- in use with the same function.
pub lookup-slot :
    (r : Registry) (k : ℕ)
    → IsValid r
    → k < r.size
    → (j : ℕ) × (lookup (get_or r.threads k empty_info).func r ≡ some j)
      × (k ≤ j)
      × (j < r.size)
      × ((get_or r.threads j empty_info).func ≡ (get_or r.threads k empty_info).func)
unfolding lookup
lookup-slot r k h used =
    let func : ℕ = (get_or r.threads k empty_info).func in
    let (j, e, le, lt, hit) =
      find_last-ge (λ t. t.func == func) (take r.size r.threads) 0 k none
        (omega (arith, length-take r.size r.threads, h.slots, h.within))
        (eq→== _ _ (ap (λ t. t.func) (get_or-take r.size k r.threads empty_info used))) in
    let lt' : j < r.size = omega (arith, length-take r.size r.threads) in
    (
      j,
      e ∙ ap some (omega arith),
      le,
      lt',
      sym (ap (λ t. t.func) (get_or-take r.size j r.threads empty_info lt')) ∙ ==→eq _ _ hit,
    )
