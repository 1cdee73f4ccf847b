-- ===== src/Vector/Whole/Walk.antt =====
-- `vector_head` and `vector_next`: the loop over a vector visits its elements in order.
use nettlp_dpdk.Prelude.{
  ℕ, zero, suc, ◌+◌, ◌-◌, ◌<◌, ◌≡◌, ◌≢◌, ap, ◌∙◌, Bool, true, ◌&&◌, Option, none, some, List, [],
  ◌∷◌, arith, ◌==◌, ltb, if◌then◌else◌, not, get_or, take_eq, drop, drop_step, drop_all, drop_eq,
  get_or-take, sym, Bool-cases, inl, inr, ==→eq, ==→ne,
}
use nettlp_dpdk.Vector.{Vector, contents}
use nettlp_dpdk.Vector.Inv.{IsValid, length-contents}

-- struct vector_node, but for its pointer to the vector, which the functions take beside it
pub record Node : Type 0 where
  pub index : ℕ
  pub value : ℕ

-- `granted` is the answer of malloc.
pub head : Bool → Vector → Option Node
head granted v =
    if v.size == 0
    then none
    else if not granted
    then none
    else some (record { index = 0; value = get_or v.array 0 0 })

-- The index stays where the vector changed under the loop.
pub next : Vector → Node → Option Node
next v node =
    let index =
      if node.value == get_or v.array node.index 0 && ltb node.index v.size
      then node.index + 1
      else node.index in
    if index == v.size
    then none
    else some (record { index = index; value = get_or v.array index 0 })

module _ {ℓ} {S : Type ℓ} (v : Vector) (body : ℕ → S → S) where
  -- for (node = ...; node; node = vector_next (node)) body, with fuel
  pub loop : ℕ → Option Node → S → S
  loop fuel none s = s
  loop zero (some node) s = s
  loop (suc fuel) (some node) s = loop fuel (next v node) (body node.value s)

  -- The loop from `vector_head` on: it takes a round for each element.
  pub for_each : Bool → S → S
  for_each granted s = loop v.size (head granted v) s

-- The body run on each element, first to last.
abbrev pub visit {ℓ} : {S : Type ℓ} → (ℕ → S → S) → List ℕ → S → S
visit body [] s = s
visit body (x ∷ xs) s = visit body xs (body x s)

at_index : Vector → ℕ → Node
at_index v index = record { index = index; value = get_or v.array index 0 }

next_inside :
    (v : Vector) (index : ℕ)
    → index + 1 < v.size
    → next v (at_index v index) ≡ some (at_index v (index + 1))
unfolding next at_index
next_inside v index h = ground arith

next_last : (v : Vector) (index : ℕ) → index + 1 ≡ v.size → next v (at_index v index) ≡ none
unfolding next at_index
next_last v index h = ground arith

module _ {ℓ} {S : Type ℓ} (v : Vector) (valid : IsValid v) (body : ℕ → S → S) where
  visit_step :
      (index : ℕ) (s : S)
      → index < v.size
      → visit body (drop index (contents v)) s
        ≡ visit body (drop (suc index) (contents v)) (body (get_or v.array index 0) s)
  visit_step index s h =
      ap (λ l. visit body l s)
        (drop_step index (contents v) 0 (omega (arith, length-contents valid)))
      ∙ ap (λ x. visit body (drop (suc index) (contents v)) (body x s))
          (get_or-take v.size index v.array 0 h)

  loop_from :
      (n index : ℕ) (s : S)
      → index + suc n ≡ v.size
      → loop v body (suc n) (some (at_index v index)) s ≡ visit body (drop index (contents v)) s
  unfolding loop at_index
  loop_from zero index s e =
      rw (next_last v index (omega arith), loop)
        (sym (
          visit_step index s (omega arith)
          ∙ ap (λ l. visit body l (body (get_or v.array index 0) s))
              (drop_all (suc index) (contents v) (omega (arith, length-contents valid)))))
  loop_from (suc n) index s e =
      rw (next_inside v index (omega arith), loop)
        (loop_from n (index + 1) (body (get_or v.array index 0) s) (omega arith)
          ∙ ap (λ l. visit body l (body (get_or v.array index 0) s))
              (drop_eq (index + 1) (suc index) (contents v) (omega arith))
          ∙ sym (visit_step index s (omega arith)))

  -- When malloc serves the node, the loop over a valid vector that its body leaves alone runs the
  -- body on each element, first to last, and on nothing else.
  pub for_each-visit : (s : S) → for_each v body true s ≡ visit body (contents v) s
  unfolding for_each head loop at_index
  for_each-visit s = elim (Bool-cases (v.size == 0)) [
    | inl nothing ↦
        rw nothing
          (ap (λ l. visit body l s) (sym (take_eq v.size 0 v.array (==→eq v.size 0 nothing))))
    | inr more ↦ rw more (
        ap (λ k. loop v body k (some (at_index v 0)) s) (size-suc (==→ne v.size 0 more))
        ∙ loop_from (v.size - 1) 0 s (omega (arith, ==→ne v.size 0 more)))
  ]
    where
      size-suc : v.size ≢ 0 → v.size ≡ suc (v.size - 1)
      size-suc ne = omega arith
