-- ===== src/Names.antt =====
-- extensions/_shared/agent-runtime/agent-names.ts, the names of agents and their registry.
--
-- The registry's two maps are entries in the order of insertion; the set of a name's holders is the
-- list of their ids, each once. The loop of `assign` runs on fuel, one round more than there are
-- names in use, which Names.Fresh shows to be enough.
mod Dictionary
mod Fresh
mod Sets
mod Holders
mod Releasing
pub mod Refinement
use locus_pi.Common.{
  ℕ, zero, suc, ◌+◌, ◌*◌, ◌/◌, ◌%◌, ◌^◌, Bool, true, false, not, List, [], ◌∷◌, ◌++◌, Option, none,
  some, get_or, is_some, if◌then◌else◌, any, keep, length, get_elem?, ◌==◌,
}
use Prim.Native.Nat.{bit_xor}
use locus_pi.Common.Text.{Text, text_eq, codes, decimal}
use locus_pi.Common.Map.{Entries, lookup, store, discard}
use locus_pi.Names.Dictionary.{scientist_names}

-- The rounds of `fnv1a`. The language keeps the hash as a signed 32-bit number between them; it is
-- kept here modulo 2 ^ 32, as `>>> 0` gives it in the end.
abbrev pub fnv1a_from : ℕ → Text → ℕ
fnv1a_from hash [] = hash
fnv1a_from hash (c ∷ cs) = fnv1a_from (bit_xor hash c * 0x01000193 % 2 ^ 32) cs

unfoldable pub fnv1a : Text → ℕ
fnv1a input = fnv1a_from 0x811c9dc5 input

unfoldable pub petname : Text → Text
unfolding fnv1a
petname id = get_or (get_elem? scientist_names (fnv1a id % length scientist_names)) (codes "Abel")

-- `PetnameRegistry`
pub record Registry : Type 0 where
  pub by_id : Entries Text
  pub holders_by_name : Entries (List Text)

abbrev pub new_registry : Registry
new_registry = record { by_id = []; holders_by_name = [] }

-- `set.add(id)`, `set.has(id)` and `set.delete(id)`
abbrev pub has : Text → List Text → Bool
has id = any (λ h. text_eq h id)

abbrev pub add : Text → List Text → List Text
add id holders = if has id holders then holders else holders ++ id ∷ []

abbrev pub without : Text → List Text → List Text
without id = keep (λ h. not (text_eq h id))

unfoldable pub hold : Registry → Text → Text → Registry
hold r id name = record {
  by_id = store r.by_id id name;
  holders_by_name =
      store r.holders_by_name name (add id (get_or (lookup r.holders_by_name name) []));
}

-- The names that `assign` tries: the base, and the base with the suffixes from 2 on.
abbrev pub candidate : Text → ℕ → Text
candidate base zero = base
candidate base (suc n) = base ++ b'-' ∷ decimal (suc (suc n))

-- The loop of `assign`, at the round `n`.
unfoldable pub free_name : ℕ → Entries (List Text) → Text → ℕ → Text
free_name zero held base n = candidate base n
free_name (suc fuel) held base n =
    let next = free_name fuel held base (suc n) in
    if is_some (lookup held (candidate base n)) then next else candidate base n

unfoldable pub assign : Registry → Text → Registry × Text
unfolding free_name hold
assign r id = elim (lookup r.by_id id) [
  | some name ↦ (r, name)
  | none ↦
      let name = free_name (suc (length r.holders_by_name)) r.holders_by_name (petname id) 0 in
      (hold r id name, name)
]

unfoldable pub adopt : Registry → Text → Text → Registry × Text
unfolding hold
adopt r id name = elim (lookup r.by_id id) [ some held ↦ (r, held) | none ↦ (hold r id name, name) ]

-- The holders of a name without one, and without an entry when none is left.
abbrev pub drop_holder : Entries (List Text) → Text → Text → Entries (List Text)
drop_holder held name id = elim (lookup held name) [
  | none ↦ held
  | some holders ↦ elim (without id holders) [
    | [] ↦ discard held name
    | h ∷ hs ↦ store held name (h ∷ hs)
  ]
]

unfoldable pub release : Registry → Text → Registry × Bool
release r id = elim (lookup r.by_id id) [
  | none ↦ (r, false)
  | some name ↦ (
    record { by_id = discard r.by_id id; holders_by_name = drop_holder r.holders_by_name name id },
    true,
  )
]

pub data Event : Type 0 where
  assigns releases : Text → Event
  adopts : (id name : Text) → Event
  resets : Event

unfoldable pub step : Registry → Event → Registry
step r (assigns id) = (assign r id).0
step r (releases id) = (release r id).0
step r (adopts id name) = (adopt r id name).0
step r resets = new_registry

unfoldable pub run : Registry → List Event → Registry
run r [] = r
run r (e ∷ es) = run (step r e) es
