-- ===== src/Capability/Grant.antt =====
-- `grant` (kernel/src/capability.rs): what it hands over, and what it leaves alone.
use pickle_os.Base.{
  ℕ, true, false, ◌≡◌, ◌⊎◌, ◌&&◌, none, some, arith, ◌==◌, if◌then◌else◌, Option-cases, Bool-cases,
  inl, inr,
}
use pickle_os.Capability.Flags.{Rights, contains, intersect, grant_right}
use pickle_os.Capability.Slots.{lookup-mint, mint_free}
use pickle_os.Capability.{Capability, Tables, mint, lookup, grant}

-- What a grant that is allowed does: it is a mint of the clamped capability.
pub grant_allowed :
    (t : Tables) (from_task from_slot to_task : ℕ) (rights : Rights) (source : Capability)
    → lookup t from_task from_slot ≡ some source
    → contains source.rights grant_right ≡ true
    → grant t from_task from_slot to_task rights ≡ (
      (mint t to_task source.object (intersect source.rights rights)).0,
      some (mint t to_task source.object (intersect source.rights rights)).1,
    )
unfolding grant
grant_allowed t from_task from_slot to_task rights source e g = rw (e, grant) (rw g)

-- A grant succeeds exactly when the source slot holds a capability with the grant right.
grant_cases :
    (t : Tables) (from_task from_slot to_task : ℕ) (rights : Rights)
    → ((source : Capability) × (lookup t from_task from_slot ≡ some source)
        × (contains source.rights grant_right ≡ true))
      ⊎ (grant t from_task from_slot to_task rights ≡ (t, none))
unfolding grant
grant_cases t from_task from_slot to_task rights =
    elim (Option-cases (lookup t from_task from_slot)) [
      | inl e ↦ inr (rw (e, grant))
      | inr (source, e) ↦ elim (Bool-cases (contains source.rights grant_right)) [
        | inl g ↦ inl (source, e, g)
        | inr g ↦ inr (rw (e, grant) (rw g))
      ]
    ]

abbrev pub clamp : Capability → Rights → Capability
clamp source rights = record { object = source.object; rights = intersect source.rights rights }

-- A grant that returns a slot had a source capability with the grant right; the slot was free, it
-- now holds the source's object with the source's rights cut down to those asked for, and every
-- other slot of every task is as before.
pub grant_clamps :
    (t t' : Tables) (from_task from_slot to_task : ℕ) (rights : Rights) (slot : ℕ)
    → grant t from_task from_slot to_task rights ≡ (t', some slot)
    → (source : Capability) × (lookup t from_task from_slot ≡ some source)
      × (contains source.rights grant_right ≡ true)
      × (lookup t to_task slot ≡ none)
      × ((task j : ℕ)
          → lookup t' task j ≡ (
              if to_task == task && slot == j then some (clamp source rights) else lookup t task j))
grant_clamps t t' from_task from_slot to_task rights slot h =
    elim (grant_cases t from_task from_slot to_task rights) [
      | inr e ↦ absurd (ground arith)
      | inl (source, e, g) ↦
          (let a = grant_allowed t from_task from_slot to_task rights source e g in
            let m = intersect source.rights rights in
            (
              source,
              e,
              g,
              ground (arith, a, mint_free t to_task source.object m),
              λ task j. ground (arith, a, lookup-mint t to_task source.object m task j),
            ))
    ]

-- A grant that is refused changes nothing, and is refused only when the source slot is empty or
-- its capability lacks the grant right.
pub grant_refused :
    (t t' : Tables) (from_task from_slot to_task : ℕ) (rights : Rights)
    → grant t from_task from_slot to_task rights ≡ (t', none)
    → (t' ≡ t)
      × ((source : Capability)
          → lookup t from_task from_slot ≡ some source
          → contains source.rights grant_right ≡ false)
grant_refused t t' from_task from_slot to_task rights h =
    elim (grant_cases t from_task from_slot to_task rights) [
      | inr e ↦ (
        ground arith,
        λ source s. elim (Bool-cases (contains source.rights grant_right)) [
          | inr g ↦ g
          | inl g ↦
              absurd (ground (arith, grant_allowed t from_task from_slot to_task rights source s g))
        ],
      )
      | inl (source, e, g) ↦
          absurd (ground (arith, grant_allowed t from_task from_slot to_task rights source e g))
    ]
