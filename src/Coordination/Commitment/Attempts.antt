-- ===== src/Coordination/Commitment/Attempts.antt =====
-- coordination/routing.py: what `_finish_prepared` may do with the actions, and when a recovery bundle
-- stops, told on the list of its attempts.
use mininet_ai.Prelude.{
  String, ◌≡◌, refl, subst, ◌⊎◌, Bool, true, false, not, ◌&&◌, Option, none, some, List, [], ◌∷◌,
  arith, if◌then◌else◌, contains,
}
use mininet_ai.Prelude.Dict.{lookup}
use mininet_ai.Coordination.Arbitration.{ActionProposal, ArbitrationCandidate}
use mininet_ai.Coordination.Commitment.{conflict_rejected, bundle_stopped}

-- What becomes of a candidate's proposal: it is executed, `reject` is called for it with a code, or the
-- second `validate` refuses it.
pub data Attempt (R : Type 0) : Type 0 where
  executed : ActionProposal → R → Attempt R
  refused : ActionProposal → String → Attempt R
  invalid : ActionProposal → R → Attempt R

-- does an attempt end a recovery bundle?
abbrev pub ends : {R : Type 0} → (R → Bool) → Attempt R → Bool
ends succeeds (executed p r) = not (succeeds r)
ends succeeds _ = true

module _ {R : Type 0} (succeeds : R → Bool) (bundle : Bool)
    (rejections : List (String × ArbitrationCandidate)) where
  -- What may become of a candidate while the bundle goes on: it is refused if the admission turned it
  -- down at the start, and else executed, refused for a conflict, or not valid.
  abbrev pub Allowed : ArbitrationCandidate → Attempt R → Type 0
  Allowed c a =
      (a ≡ refused c.proposal conflict_rejected)
      ⊎ ((lookup c.candidate_id rejections ≡ none)
          × (((r : R) × (a ≡ executed c.proposal r)) ⊎ ((r : R) × (a ≡ invalid c.proposal r))))

  -- One attempt for each candidate, in their order. When `stopped` holds, all that is left is refused
  -- because the bundle has stopped; a bundle stops at the first attempt that is no success.
  abbrev pub Follows : Bool → List (Attempt R) → List ArbitrationCandidate → Type 0
  Follows stopped [] [] = Unit
  Follows stopped [] (c ∷ cs) = ⊥
  Follows stopped (a ∷ rest) [] = ⊥
  Follows true (a ∷ rest) (c ∷ cs) = (a ≡ refused c.proposal bundle_stopped) × Follows true rest cs
  Follows false (a ∷ rest) (c ∷ cs) = Allowed c a × Follows (bundle && ends succeeds a) rest cs

  -- one round from `stopped`: its attempt, and whether the bundle is stopped after it
  abbrev pub Step : Bool → ArbitrationCandidate → Attempt R → Bool → Type 0
  Step true c a after = (a ≡ refused c.proposal bundle_stopped) × (after ≡ true)
  Step false c a after = Allowed c a × (after ≡ (bundle && ends succeeds a))

  pub going :
      (halted after : Bool) (c : ArbitrationCandidate) (a : Attempt R)
      → halted ≡ false
      → Allowed c a
      → after ≡ (bundle && ends succeeds a)
      → Step halted c a after
  going false after c a o h e = (h, e)
  going true after c a o h e = absurd (ground (arith, o))

  pub halting :
      (halted : Bool) (c : ArbitrationCandidate) (a : Attempt R)
      → halted ≡ true
      → a ≡ refused c.proposal bundle_stopped
      → Step halted c a halted
  halting true c a o e = (e, refl)
  halting false c a o e = absurd (ground (arith, o))

  pub Follows-cons :
      (stopped after : Bool) (a : Attempt R) (rest : List (Attempt R)) (c : ArbitrationCandidate)
      (cs : List ArbitrationCandidate)
      → Step stopped c a after
      → Follows after rest cs
      → Follows stopped (a ∷ rest) (c ∷ cs)
  Follows-cons true after a rest c cs (e, h) f = (e, subst (λ b. Follows b rest cs) h f)
  Follows-cons false after a rest c cs (e, h) f = (e, subst (λ b. Follows b rest cs) h f)

-- the candidates that arbitration rejected, each refused for its conflict
abbrev pub refused_rest : {R : Type 0} → List String → List ArbitrationCandidate → List (Attempt R)
refused_rest rejected_ids [] = []
refused_rest rejected_ids (c ∷ cs) =
    let rest = refused_rest rejected_ids cs in
    if contains rejected_ids c.candidate_id
    then refused c.proposal conflict_rejected ∷ rest
    else rest

-- what the answer of `validate` adds to the attempts
abbrev pub validated : {R : Type 0} → ActionProposal → Option R → List (Attempt R)
validated p none = []
validated p (some r) = invalid p r ∷ []
