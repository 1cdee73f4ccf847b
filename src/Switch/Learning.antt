-- ===== src/Switch/Learning.antt =====
-- The forwarding table as a map from addresses to ports.
use nettlp_dpdk.Prelude.{
  ℕ, ◌≡◌, ◌≢◌, inl, inr, arith, Bool, false, ◌&&◌, ◌||◌, ◌==◌, Option, none, some, List, [], ◌∷◌,
  if◌then◌else◌, Bool-cases,
}
use nettlp_dpdk.Switch.{FdbEntry, register_fdb}

-- The port of the first entry with an address.
abbrev pub port_of : List FdbEntry → ℕ → Option ℕ
port_of [] a = none
port_of (e ∷ es) a = if e.l2addr == a then some e.port else port_of es a

-- There is a free entry, or one of the address.
abbrev pub has_room : ℕ → List FdbEntry → Bool
has_room src [] = false
has_room src (e ∷ es) = e.l2addr == 0 || (e.l2addr == src || has_room src es)

-- A packet's source is learned, at the port that it came in by, if there is room for it, and nothing
-- changes for any other address; without room, nothing changes at all.
pub register_fdb-port_of :
    (src port a : ℕ) (es : List FdbEntry)
    → a ≢ 0
    → port_of (register_fdb src port es) a
      ≡ (if (src == a) && has_room src es then some port else port_of es a)
unfolding register_fdb
register_fdb-port_of src port a [] nz = ground arith
register_fdb-port_of src port a (e ∷ es) nz = elim (Bool-cases (e.l2addr == 0)) [
  | inl free ↦ rw free (ground (arith, nz, free))
  | inr taken ↦ elim (Bool-cases (e.l2addr == src)) [
    | inl known ↦ rw (taken, known) (ground (arith, nz, taken, known))
    | inr other ↦
        rw (taken, other) (ground (arith, nz, taken, other, register_fdb-port_of src port a es nz))
  ]
]
