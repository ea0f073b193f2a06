-- ===== src/Finalizer/Policies/Order.antt =====
-- client/finalizer/signing_policy_storage.go: the list stays in order, and cleaning up cuts its front.
use flare_system_client.Prelude.{
  ℕ, ◌≤◌, ◌<◌, ◌≡◌, refl, ap, sym, List, [], ◌∷◌, ◌++◌, arith, map, All, leb, Bool-cases, inl, inr,
  ok, pos, ◌-ℤ◌, ok-injective, subst,
}
use flare_system_client.Utils.Int64.{to_uint32, eq_ℤ, eq_ℤ→eq}
use flare_system_client.Finalizer.Policies.{SigningPolicy, last_of, add, remove_by_voting_round}

-- Neighbours are of consecutive reward epochs, and the later one does not start earlier.
abbrev pub Follows : SigningPolicy → SigningPolicy → Type 0
Follows p q =
    (p.reward_epoch_id ≡ q.reward_epoch_id -ℤ pos 1)
    × (p.start_voting_round_id ≤ q.start_voting_round_id)

abbrev pub IsOrdered : List SigningPolicy → Type 0
IsOrdered [] = Unit {0}
IsOrdered (p ∷ []) = Unit {0}
IsOrdered (p ∷ (q ∷ qs)) = Follows p q × IsOrdered (q ∷ qs)

append-IsOrdered :
    (p : SigningPolicy) (ps : List SigningPolicy) (sp : SigningPolicy)
    → IsOrdered (p ∷ ps)
    → Follows (last_of p ps) sp
    → IsOrdered ((p ∷ ps) ++ (sp ∷ []))
unfolding last_of
append-IsOrdered p [] sp h f = (f, tt)
append-IsOrdered p (q ∷ qs) sp h f = (h.0, append-IsOrdered q qs sp h.1 f)

-- A policy that `Add` accepts into an ordered list joins at its end, and the list stays ordered:
-- the reward epochs are consecutive and the starts do not descend.
pub add-IsOrdered :
    (ps : List SigningPolicy) (sp : SigningPolicy) (ps' : List SigningPolicy)
    → IsOrdered ps
    → add ps sp ≡ ok ps'
    → IsOrdered ps' × (ps' ≡ ps ++ (sp ∷ []))
unfolding add
add-IsOrdered [] sp ps' h e = (subst IsOrdered (ok-injective e) tt, sym (ok-injective e))
add-IsOrdered (p ∷ ps) sp ps' h e =
    elim (Bool-cases (eq_ℤ (last_of p ps).reward_epoch_id (sp.reward_epoch_id -ℤ pos 1))) [
      | inr other ↦ absurd (ground (arith, other))
      | inl same ↦
          elim (Bool-cases (leb (last_of p ps).start_voting_round_id sp.start_voting_round_id)) [
            | inr early ↦ absurd (ground (arith, same, early))
            | inl later ↦
                let got : (p ∷ ps) ++ (sp ∷ []) ≡ ps' = ok-injective (rw (same, add, later) at e) in
                (
                  subst IsOrdered got (append-IsOrdered p ps sp h (eq_ℤ→eq _ _ same, ground arith)),
                  sym got,
                )
          ]
    ]

-- The first policies, those that start at the round or earlier, are cut off.
pub record Cut (ps : List SigningPolicy) (round : ℕ) (ids : List ℕ) (rest : List SigningPolicy)
    : Type 0 where
  pub removed : List SigningPolicy
  pub split : ps ≡ removed ++ rest
  pub removed_ids : ids ≡ map (λ (p : SigningPolicy). to_uint32 p.reward_epoch_id) removed
  pub old : All (λ (p : SigningPolicy). p.start_voting_round_id ≤ round) removed
  pub recent : All (λ (p : SigningPolicy). round < p.start_voting_round_id) rest
  pub ordered : IsOrdered rest

tail-IsOrdered : (p : SigningPolicy) (ps : List SigningPolicy) → IsOrdered (p ∷ ps) → IsOrdered ps
tail-IsOrdered p [] h = tt
tail-IsOrdered p (q ∷ qs) h = h.1

recent-behind :
    (round : ℕ) (p : SigningPolicy) (ps : List SigningPolicy)
    → IsOrdered (p ∷ ps)
    → round < p.start_voting_round_id
    → All (λ (q : SigningPolicy). round < q.start_voting_round_id) (p ∷ ps)
recent-behind round p [] h lt = (lt, tt)
recent-behind round p (q ∷ qs) h lt = (lt, recent-behind round q qs h.1 (omega (arith, h.0)))

-- On an ordered list, `RemoveByVotingRound` removes exactly the policies that start at the given round or
-- earlier. They are the front of the list; their reward epoch ids are returned, and the rest is ordered.
pub remove_by_voting_round-Cut :
    (ps : List SigningPolicy) (round : ℕ)
    → IsOrdered ps
    → Cut ps round (remove_by_voting_round ps round).0 (remove_by_voting_round ps round).1
unfolding remove_by_voting_round
remove_by_voting_round-Cut [] round h = record {
  removed = [];
  split = refl;
  removed_ids = refl;
  old = tt;
  recent = tt;
  ordered = tt;
}
remove_by_voting_round-Cut (p ∷ ps) round h =
    elim (Bool-cases (leb p.start_voting_round_id round)) [
      | inl early ↦
          let c = remove_by_voting_round-Cut ps round (tail-IsOrdered p ps h) in
          rw (early, remove_by_voting_round)
            (record {
              removed = p ∷ c.removed;
              split = ap (λ l. p ∷ l) c.split;
              removed_ids = ap (λ l. to_uint32 p.reward_epoch_id ∷ l) c.removed_ids;
              old = (ground arith, c.old);
              recent = c.recent;
              ordered = c.ordered;
            })
      | inr late ↦
          rw (late, remove_by_voting_round)
            (record {
              removed = [];
              split = refl;
              removed_ids = refl;
              old = tt;
              recent = recent-behind round p ps h (ground arith);
              ordered = h;
            })
    ]
