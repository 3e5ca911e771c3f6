-- ===== src/World/Provider/PhaseChange.antt =====
-- internal/adapter/world/runtime/provider.go: `persistPhase`, called again.
use clawvival.Base.{
  ℕ, ◌≡◌, refl, ◌∙◌, arith, String, str_eq, eq_iff, true, Bool-cases, inl, inr, Option, none, some,
}
use mathlib.Core.Path.{subst}
use clawvival.Base.Store.{◌>>◌, return, bind-eq, bind-some}
use clawvival.World.Provider.{ClockStateStore, changed, persist_phase}

same_text : (a b : String) → str_eq a b ≡ true → a ≡ b
same_text a b h = ground (arith, eq_iff a b)

text_self : (a : String) → str_eq a a ≡ true
text_self a = ground (arith, eq_iff a a)

module _ {S : Type 0} where
  same_state : (c d : Option String) (t u : S) → return c t ≡ some (d, u) → t ≡ u
  same_state c d t u h = cc h

  -- A store of the phase that finds what it found or saved last.
  pub record Remembers (store : ClockStateStore S) : Type 0 where
    pub after_get :
        (s s' : S) (found : Option String)
        → store.get_phase s ≡ some (found, s')
        → store.get_phase s' ≡ some (found, s')
    pub after_save :
        (phase : String) (now : ℕ) (s s' : S)
        → store.save_phase phase now s ≡ some (tt, s')
        → store.get_phase s' ≡ some (some phase, s')

  returned :
      (store : ClockStateStore S) (phase : String) (c d : Option String) (t s' : S)
      → return c t ≡ some (d, s')
      → store.get_phase t ≡ some (some phase, t)
      → store.get_phase s' ≡ some (some phase, s')
  returned store phase c d t s' h got =
      subst (λ (u : S). store.get_phase u ≡ some (some phase, u)) (same_state c d t s' h) got

  saved :
      (store : ClockStateStore S)
      → Remembers store
      → (phase : String) (now : ℕ) (c d : Option String) (s s' : S)
      → (store.save_phase phase now >> return c) s ≡ some (d, s')
      → store.get_phase s' ≡ some (some phase, s')
  saved store law phase now c d s s' h =
      let (_, t, saves, returns) =
        bind-some (store.save_phase phase now) (λ _. return c) s s' d h in
      returned store phase c d t s' returns (law.after_save phase now s t saves)

  after_change :
      (store : ClockStateStore S)
      → Remembers store
      → (phase : String) (now : ℕ) (found d : Option String) (s s' : S)
      → store.get_phase s ≡ some (found, s)
      → changed store phase now found s ≡ some (d, s')
      → store.get_phase s' ≡ some (some phase, s')
  unfolding changed
  after_change store law phase now none d s s' got h = saved store law phase now none d s s' h
  after_change store law phase now (some current) d s s' got h =
      elim (Bool-cases (str_eq current phase)) [
        | inl same ↦
            returned store phase none d s s' (rw same at h)
              (rw (same_text current phase same) at got)
        | inr other ↦ saved store law phase now (some current) d s s' (rw other at h)
      ]

  stays :
      (store : ClockStateStore S) (phase : String) (now : ℕ) (s : S)
      → store.get_phase s ≡ some (some phase, s)
      → persist_phase (some store) phase now s ≡ some (none, s)
  unfolding persist_phase changed
  stays store phase now s got =
      bind-eq store.get_phase (changed store phase now) s s (some phase) got
      ∙ rw (text_self phase) refl

  -- With a store that remembers the phase, a phase that has been persisted is not reported as a change
  -- when it is persisted again, at any time, and the store stays as it is.
  pub persist_phase_lem :
      (store : ClockStateStore S) (phase : String) (now later : ℕ) (change : Option String)
      (s s' : S)
      → Remembers store
      → persist_phase (some store) phase now s ≡ some (change, s')
      → persist_phase (some store) phase later s' ≡ some (none, s')
  unfolding persist_phase
  persist_phase_lem store phase now later change s s' law h =
      let (found, t, got, rest) =
        bind-some store.get_phase (changed store phase now) s s' change h in
      stays store phase later s'
        (after_change store law phase now found change t s' (law.after_get s t found got) rest)
