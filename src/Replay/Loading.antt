-- ===== src/Replay/Loading.antt =====
-- workflow-replay.ts: what the constructor makes of a record without gaps.
use locus_pi.Common.{
  ℕ, ◌+◌, ◌≡◌, ◌≢◌, ◌<◌, ◌≤◌, refl, sym, subst, ap, ◌∙◌, true, false, Option, none, some, List, [],
  ◌∷◌, arith, ◌==◌, ==_iff, if◌then◌else◌, All, get_or,
}
use locus_pi.Common.Text.{Text}
use locus_pi.Replay.Records.{AgentEntry, agent, Call, is_retired, retired_marker}
use locus_pi.Replay.Controller.{
  Controller, Slots, get_slot, set_slot, has_slot, merge_agent, add_agent, add_entry, add_entries,
}
use locus_pi.Replay.Recording.{Attempt, entry_of, entries_from}

get_slot-set_slot :
    (n m : ℕ) (e : Option AgentEntry) (s : Slots AgentEntry)
    → get_slot n (set_slot m e s) ≡ (if m == n then e else get_slot n s)
get_slot-set_slot n m e [] = ground arith
get_slot-set_slot n m e ((k, f) ∷ s) = ground (arith, get_slot-set_slot n m e s)

has_slot-set_slot :
    (n m : ℕ) (e : Option AgentEntry) (s : Slots AgentEntry)
    → has_slot n s ≡ false
    → (m == n) ≡ false
    → has_slot n (set_slot m e s) ≡ false
has_slot-set_slot n m e [] h d = ground arith
has_slot-set_slot n m e ((k, f) ∷ s) h d = ground (arith, has_slot-set_slot n m e s)

get-has : (n : ℕ) (s : Slots AgentEntry) → has_slot n s ≡ false → get_slot n s ≡ none
get-has n [] h = refl
get-has n ((k, f) ∷ s) h = ground (arith, get-has n s)

module _ (hash : Text → Text) where
  -- A call that may be replayed, of a contract that is not retired.
  abbrev pub IsReplayable : Attempt → Type 0
  IsReplayable (call, text) = (call.replayable ≡ true) × (call.return_contract_version ≢ some 5)

  -- The record holds one entry for each call, from `n` on.
  abbrev pub Holds : Slots AgentEntry → ℕ → List Attempt → Type 0
  Holds s n [] = Unit {0}
  Holds s n (a ∷ rest) = (get_slot n s ≡ some (entry_of hash n a)) × Holds s (n + 1) rest

  abbrev pub IsFree : Slots AgentEntry → ℕ → Type 0
  IsFree s n = (m : ℕ) → n ≤ m → has_slot m s ≡ false

  pub unretired :
      (n : ℕ) (call : Call) (text : Text)
      → IsReplayable (call, text)
      → is_retired (entry_of hash n (call, text)) ≡ false
  unretired n call text (r, v) = ground arith

  merged :
      (n : ℕ) (a : Attempt) (s : Slots AgentEntry)
      → IsReplayable a
      → has_slot n s ≡ false
      → merge_agent (entry_of hash n a) s ≡ some (entry_of hash n a)
  merged n (call, text) s r h = ground (arith, unretired n call text r, get-has n s h)

  -- A controller at call `n` that replays, with no call in flight.
  abbrev pub IsReplaying : ℕ → Controller → Type 0
  IsReplaying n c =
      (c.replay_enabled ≡ true)
      × (c.has_diverged ≡ false)
      × (c.strict_refusal ≡ none)
      × (c.source_script_changed ≡ false)
      × (c.read_cursor ≡ n)
      × (c.admissions ≡ [])

  abbrev pub Loaded : Controller → ℕ → List Attempt → Controller → Type 0
  Loaded c n rest d =
      Holds d.recorded_agents n rest
      × ((m : ℕ) → m < n → get_slot m d.recorded_agents ≡ get_slot m c.recorded_agents)
      × (IsReplaying 0 c → IsReplaying 0 d)

  first_added :
      (n : ℕ) (a : Attempt) (c : Controller)
      → IsReplayable a
      → add_entry (agent (entry_of hash n a)) c ≡ some (add_agent (entry_of hash n a) c)
  first_added n (call, text) c r =
      ap
        (λ b.
          if b
          then if true
            then some (add_agent (retired_marker (entry_of hash n (call, text))) c)
            else none
          else some (add_agent (entry_of hash n (call, text)) c))
        (unretired n call text r)

  IsFree-next :
      (n : ℕ) (e : Option AgentEntry) (s : Slots AgentEntry)
      → IsFree s n
      → IsFree (set_slot n e s) (n + 1)
  IsFree-next n e s f m le = has_slot-set_slot m n e s (f m (ground arith)) (ground arith)

  slot_set :
      (n : ℕ) (a : Attempt) (s : Slots AgentEntry)
      → IsReplayable a
      → has_slot n s ≡ false
      → get_slot n (set_slot n (merge_agent (entry_of hash n a) s) s) ≡ some (entry_of hash n a)
  slot_set n a s r h =
      get_slot-set_slot n n (merge_agent (entry_of hash n a) s) s
      ∙ ap (λ b. if b then merge_agent (entry_of hash n a) s else get_slot n s)
          ((==_iff n n).1 refl)
      ∙ merged n a s r h

  other_slot :
      (m n : ℕ) (e : Option AgentEntry) (s : Slots AgentEntry)
      → m < n
      → get_slot m (set_slot n e s) ≡ get_slot m s
  other_slot m n e s lt =
      let differs : (n == m) ≡ false = ground arith in
      get_slot-set_slot m n e s ∙ ap (λ b. if b then e else get_slot m s) differs

  pub load :
      (rest : List Attempt) (n : ℕ) (c d : Controller)
      → All IsReplayable rest
      → IsFree c.recorded_agents n
      → add_entries (entries_from hash n rest) c ≡ some d
      → Loaded c n rest d
  unfolding add_entries
  load [] n c d r f h =
      let same : c ≡ d = ap (λ o. get_or o c) h in
      (tt, (λ m lt. ap (λ x. get_slot m x.recorded_agents) (sym same)), subst (IsReplaying 0) same)
  load (a ∷ rest) n c d (r, rs) f h =
      let e = entry_of hash n a in
      let next = add_agent e c in
      let tail : add_entries (entries_from hash (n + 1) rest) next ≡ some d =
        ap (λ o. elim o [ none ↦ none | some x ↦ add_entries (entries_from hash (n + 1) rest) x ])
          (sym (first_added n a c r))
        ∙ h in
      let (held, kept, framed) =
        load rest (n + 1) next d rs
          (IsFree-next n (merge_agent e c.recorded_agents) c.recorded_agents f) tail in
      let mine : get_slot n next.recorded_agents ≡ some e =
        slot_set n a c.recorded_agents r (f n (ground arith)) in
      (
        (kept n (ground arith) ∙ mine, held),
        (λ m lt.
            kept m (ground arith)
            ∙ other_slot m n (merge_agent e c.recorded_agents) c.recorded_agents lt),
        framed,
      )

  pub loads :
      (rest : List Attempt) (n : ℕ) (c : Controller)
      → All IsReplayable rest
      → (d : Controller) × (add_entries (entries_from hash n rest) c ≡ some d)
  unfolding add_entries
  loads [] n c r = (c, refl)
  loads (a ∷ rest) n c (r, rs) =
      let (d, tail) = loads rest (n + 1) (add_agent (entry_of hash n a) c) rs in
      (
        d,
        ap (λ o. elim o [ none ↦ none | some x ↦ add_entries (entries_from hash (n + 1) rest) x ])
              (first_added n a c r)
            ∙ tail,
      )
