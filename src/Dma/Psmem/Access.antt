-- ===== src/Dma/Psmem/Access.antt =====
-- What nettlp_psmem_mwr reaches of the pseudo memory.
use nettlp_dpdk.Prelude.{
  ℕ, suc, ◌+◌, ◌-◌, ◌^◌, ◌≤◌, ◌<◌, ◌≡◌, refl, ap, ap₂, ◌∙◌, true, false, arith, List, [], ◌∷◌, done,
  abort, length, get_or, ◌⊎◌, inl, inr, Bool-cases, le→leb, lt→leb,
}
use nettlp_dpdk.Tlp.ByteOrder.{Net}
use nettlp_dpdk.Tlp.{MrHeader, word, mr_addr, mr_data_length, mwr_data}
use nettlp_dpdk.Dma.Psmem.{Psmem, sign_extend, bytes_from, write_at, is_outside, psmem_mwr}

pub bytes_from-list :
    (bytes : ℕ → ℕ) (offset : ℕ) (xs : List ℕ)
    → ((i : ℕ) → i < length xs → bytes (offset + i) ≡ get_or xs i 0)
    → bytes_from bytes offset (length xs) ≡ xs
unfolding bytes_from
bytes_from-list bytes offset [] h = refl
bytes_from-list bytes offset (x ∷ xs) h = ap₂ ◌∷◌ (ap bytes (omega arith) ∙ h 0 (omega arith)) (
    bytes_from-list bytes (offset + 1) xs
      (λ i lt. ap bytes (omega arith) ∙ h (suc i) (omega arith)))

pub sign_extend_small : (x : ℕ) → x < 2 ^ 31 → sign_extend x ≡ x
unfolding sign_extend
sign_extend_small x h = ground arith

pub is_outside_not :
    (p : Psmem) (addr len : ℕ)
    → p.base ≤ addr
    → addr + len ≤ p.base + p.size
    → p.base + p.size < word
    → is_outside p addr len ≡ false
unfolding is_outside
is_outside_not p addr len a b c = ground arith

is_outside-range :
    (p : Psmem) (addr len : ℕ)
    → is_outside p addr len ≡ false
    → addr + len < word
    → p.base + p.size < word
    → (p.base ≤ addr) × (addr + len ≤ p.base + p.size)
unfolding is_outside
is_outside-range p addr len e a b = ground arith

is_outside-range_not :
    (p : Psmem) (addr len : ℕ)
    → is_outside p addr len ≡ true
    → addr + len < word
    → p.base + p.size < word
    → (addr < p.base) ⊎ (p.base + p.size < addr + len)
unfolding is_outside
is_outside-range_not p addr len e a b = ground arith

is_outside_wrap :
    (p : Psmem) (addr len : ℕ)
    → p.base ≤ addr
    → word ≤ addr + len
    → addr + len ≤ word + (p.base + p.size)
    → p.base + p.size < word
    → is_outside p addr len ≡ false
unfolding is_outside
is_outside_wrap p addr len a b c d = ground arith

module _ (net : Net) (p : Psmem) (mh : MrHeader) (field : ℕ) (bytes : ℕ → ℕ)
    (whole : p.base + p.size < word) where
  psmem_mwr_outside :
      (addr len : ℕ)
      → mr_addr net mh field ≡ addr
      → mr_data_length net mh ≡ len
      → len < 2 ^ 31
      → is_outside p addr len ≡ true
      → psmem_mwr net p mh field bytes ≡ done p
  unfolding psmem_mwr
  psmem_mwr_outside addr len ea el small out = rw (ea, el, sign_extend_small len small, out) refl

  -- A request within the region copies its bytes to its address.
  pub psmem_mwr-inside :
      (addr len : ℕ)
      → mr_addr net mh field ≡ addr
      → mr_data_length net mh ≡ len
      → len < 2 ^ 31
      → p.base ≤ addr
      → addr + len ≤ p.base + p.size
      → p.size ≤ length p.memory
      → psmem_mwr net p mh field bytes
        ≡ done (record p {
          memory = write_at p.memory (addr - p.base) (bytes_from bytes (mwr_data net mh) len);
        })
  unfolding psmem_mwr
  psmem_mwr-inside addr len ea el small low high room =
      rw
        (
          ea,
          el,
          sign_extend_small len small,
          is_outside_not p addr len low high whole,
          le→leb (addr - p.base + len) (length p.memory) (omega arith),
        )
        refl

  -- Where neither the end of the region nor that of a request wraps round the address space, the
  -- memory is at least as large as the region says and the length is below 2^31, the copy never leaves
  -- the memory: the request is carried out within the region, or ignored where it does not lie in the
  -- region.
  pub psmem_mwr-safe :
      (addr len : ℕ)
      → mr_addr net mh field ≡ addr
      → mr_data_length net mh ≡ len
      → len < 2 ^ 31
      → addr + len < word
      → p.size ≤ length p.memory
      → ((psmem_mwr net p mh field bytes ≡ done p)
          × ((addr < p.base) ⊎ (p.base + p.size < addr + len)))
        ⊎ ((psmem_mwr net p mh field bytes
              ≡ done (record p {
                memory = write_at p.memory (addr - p.base) (bytes_from bytes (mwr_data net mh) len);
              }))
            × (p.base ≤ addr)
            × (addr + len ≤ p.base + p.size))
  psmem_mwr-safe addr len ea el small high room = elim (Bool-cases (is_outside p addr len)) [
    | inl out ↦
        inl (
          psmem_mwr_outside addr len ea el small out,
          is_outside-range_not p addr len out high whole,
        )
    | inr within ↦
        let (low, top) = is_outside-range p addr len within high whole in
        inr (psmem_mwr-inside addr len ea el small low top room, low, top)
  ]

  -- A request of less than 2^31 bytes at or above the start of a region that ends in the address space
  -- and fills the memory, with an end that wraps round the address space to a place not above the end
  -- of the region, passes the check and makes the copy leave the memory.
  pub psmem_mwr-wrap :
      (addr len : ℕ)
      → mr_addr net mh field ≡ addr
      → mr_data_length net mh ≡ len
      → len < 2 ^ 31
      → p.base ≤ addr
      → word ≤ addr + len
      → addr + len ≤ word + (p.base + p.size)
      → length p.memory ≡ p.size
      → psmem_mwr net p mh field bytes ≡ abort
  unfolding psmem_mwr
  psmem_mwr-wrap addr len ea el small low wraps ends room =
      rw
        (
          ea,
          el,
          sign_extend_small len small,
          is_outside_wrap p addr len low wraps ends whole,
          lt→leb (addr - p.base + len) (length p.memory) (omega arith),
        )
        refl
