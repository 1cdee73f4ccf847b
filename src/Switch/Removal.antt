-- ===== src/Switch/Removal.antt =====
-- The loop of vswitch_port_update that takes the ports of DPDK out.
use nettlp_dpdk.Prelude.{
  drop_step, ℕ, zero, suc, ◌≤◌, ◌≡◌, refl, sym, ap, ap₂, ◌∙◌, inl, inr, arith, List, [], ◌∷◌, ◌++◌,
  if◌then◌else◌, length, take, drop, get_or, Bool-cases, append-nil, take_step, length-append,
  length-take,
}
use mathlib.Core.List.{append_assoc}
use nettlp_dpdk.Switch.{Port, linux_tap, dpdk_lcore, is_dpdk, remove_port, remove_ports}

-- The ports of TAP devices, in their order.
abbrev pub kept : List Port → List Port
kept [] = []
kept (p ∷ ps) = if is_dpdk p then kept ps else p ∷ kept ps

pub kept_append : (xs ys : List Port) → kept (xs ++ ys) ≡ kept xs ++ kept ys
kept_append [] ys = refl
kept_append (linux_tap id fd ∷ xs) ys = ap (λ l. linux_tap id fd ∷ l) (kept_append xs ys)
kept_append (dpdk_lcore id l q ∷ xs) ys = kept_append xs ys

take_removed : (i : ℕ) (xs ys : List Port) → i ≤ length xs → take i (take i xs ++ ys) ≡ take i xs
take_removed zero xs ys h = refl
take_removed (suc i) [] ys h = absurd (omega arith)
take_removed (suc i) (x ∷ xs) ys h = ap (λ l. x ∷ l) (take_removed i xs ys (omega arith))

drop_removed : (i : ℕ) (xs ys : List Port) → i ≤ length xs → drop i (take i xs ++ ys) ≡ ys
drop_removed zero xs ys h = refl
drop_removed (suc i) [] ys h = absurd (omega arith)
drop_removed (suc i) (x ∷ xs) ys h = drop_removed i xs ys (omega arith)

pub remove_ports-kept :
    (n : ℕ) (ps : List Port) → n ≤ length ps → remove_ports n ps ≡ kept (take n ps) ++ drop n ps
unfolding remove_ports
remove_ports-kept zero ps h = refl
remove_ports-kept (suc n) ps h =
    let p : Port = get_or ps n (linux_tap 0 0) in
    let split = ap kept (take_step n ps (linux_tap 0 0) h) ∙ kept_append (take n ps) (p ∷ []) in
    elim (Bool-cases (is_dpdk p)) [
      | inl e ↦
          ap (λ b. remove_ports n (if b then remove_port n ps else ps)) e
          ∙ remove_ports-kept n (remove_port n ps)
              (omega (arith, length-append (take n ps) (drop (suc n) ps), length-take n ps))
          ∙ ap₂ (λ k l. kept k ++ l) (take_removed n ps (drop (suc n) ps) (omega arith))
              (drop_removed n ps (drop (suc n) ps) (omega arith))
          ∙ ap (λ l. l ++ drop (suc n) ps)
              (sym (split ∙ ap (λ l. kept (take n ps) ++ l) (rw e refl) ∙ append-nil _))
      | inr e ↦
          ap (λ b. remove_ports n (if b then remove_port n ps else ps)) e
          ∙ remove_ports-kept n ps (omega arith)
          ∙ ap (λ l. kept (take n ps) ++ l) (drop_step n ps (linux_tap 0 0) h)
          ∙ sym (append_assoc (kept (take n ps)) (p ∷ []) (drop (suc n) ps))
          ∙ ap (λ l. l ++ drop (suc n) ps)
              (sym (split ∙ ap (λ l. kept (take n ps) ++ l) (rw e refl)))
    ]

pub kept_kept : (ps : List Port) → kept (kept ps) ≡ kept ps
kept_kept [] = refl
kept_kept (linux_tap id fd ∷ ps) = ap (λ l. linux_tap id fd ∷ l) (kept_kept ps)
kept_kept (dpdk_lcore id l q ∷ ps) = kept_kept ps
