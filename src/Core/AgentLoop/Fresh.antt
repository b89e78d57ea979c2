-- ===== src/Core/AgentLoop/Fresh.antt =====
-- core/agent_loop.py: the search of `_new_unique_id` for an identity that is not in use.
use molly.Prelude.{
  ℕ, zero, suc, ◌+◌, ◌≤◌, ◌<◌, String, ◌≡◌, true, false, none, some, List, [], ◌∷◌, arith, contains,
  length, nat_eq, Bool-cases, Option-cases, ok, inl, inr, keep, not, ◌==◌, eq_iff,
}
use molly.Core.Ledger.{LedgerEvent}
use molly.Core.Ledger.File.{read_events}
use molly.Core.Ids.{concat}
use molly.Core.Ids.Laws.{remove_prefix-concat}
use molly.Core.AgentLoop.World.{Env, World, IdField, used_ids, first_unused, new_unique_id}

-- The identity is the first candidate, from the given UUID on, that is not in use.
pub record FirstUnused (uuid : ℕ → String) (prefix : String) (used : List String) (n : ℕ)
    (id : String) (tick : ℕ) : Type 0 where
  pub number : ℕ
  pub is_later : n ≤ number
  pub counted : tick ≡ number + 1
  pub named : id ≡ concat prefix (uuid number)
  pub unused : contains used id ≡ false
  pub skipped : (k : ℕ) → n ≤ k → k < number → contains used (concat prefix (uuid k)) ≡ true

same_number : (k n : ℕ) → nat_eq k n ≡ true → k ≡ n
same_number k n e = ground arith

later_number : (k n : ℕ) → n ≤ k → nat_eq k n ≡ false → n + 1 ≤ k
later_number k n a e = ground arith

pub first_unused_lem :
    (uuid : ℕ → String) (prefix : String) (used : List String) (fuel n : ℕ) (id : String) (tick : ℕ)
    → first_unused uuid prefix used fuel n ≡ some (id, tick)
    → FirstUnused uuid prefix used n id tick
unfolding first_unused
first_unused_lem uuid prefix used zero n id tick e = cc
first_unused_lem uuid prefix used (suc fuel) n id tick e =
    elim (Bool-cases (contains used (concat prefix (uuid n)))) [
      | inl taken ↦
          (let found = first_unused_lem uuid prefix used fuel (n + 1) id tick (ground arith) in
            record {
              number = found.number;
              is_later = omega (arith, found.is_later);
              counted = found.counted;
              named = found.named;
              unused = found.unused;
              skipped = λ k a b. elim (Bool-cases (nat_eq k n)) [
                | inl here ↦ rw (same_number k n here) taken
                | inr later ↦ found.skipped k (later_number k n a later) b
              ];
            })
      | inr free ↦ record {
        number = n;
        is_later = omega arith;
        counted = ground arith;
        named = ground arith;
        unused = ground arith;
        skipped = λ k a b. absurd (omega (arith, a, b));
      }
    ]

-- A list of texts without one of them, for the count of candidates.
without : String → List String → List String
without c xs = keep (λ x. not (x == c)) xs

length-without_le : (c : String) (xs : List String) → length (without c xs) ≤ length xs
unfolding without
length-without_le c [] = ground arith
length-without_le c (x ∷ xs) = ground (arith, length-without_le c xs)

length-without :
    (c : String) (xs : List String) → contains xs c ≡ true → suc (length (without c xs)) ≤ length xs
unfolding without
length-without c [] e = cc
length-without c (x ∷ xs) e = ground (arith, length-without_le c xs, length-without c xs)

contains-without :
    (c y : String) (xs : List String)
    → contains xs y ≡ true
    → y == c ≡ false
    → contains (without c xs) y ≡ true
unfolding without
contains-without c y [] e a = cc
contains-without c y (x ∷ xs) e a = ground (arith, eq_iff x y, contains-without c y xs)

concat-injective : (p s t : String) → concat p s ≡ concat p t → s ≡ t
concat-injective p s t e = cc (remove_prefix-concat p s, remove_prefix-concat p t)

later_differs :
    (candidate : ℕ → String)
    → ((i j : ℕ) → candidate i ≡ candidate j → i ≡ j)
    → (n k : ℕ) → n + 1 ≤ k
    → candidate k == candidate n ≡ false
later_differs candidate injective n k a = elim (Bool-cases (candidate k == candidate n)) [
  | inl e ↦ absurd (omega (arith, a, injective k n ((eq_iff (candidate k) (candidate n)).0 e)))
  | inr e ↦ e
]

-- More candidates in use than there are identities in use: there are none.
few_candidates :
    (candidate : ℕ → String)
    → ((i j : ℕ) → candidate i ≡ candidate j → i ≡ j)
    → (fuel n : ℕ) (used : List String)
    → ((k : ℕ) → n ≤ k → k < n + fuel → contains used (candidate k) ≡ true)
    → fuel ≤ length used
few_candidates candidate injective zero n used all = ground arith
few_candidates candidate injective (suc fuel) n used all =
    let here = all n (omega arith) (omega arith) in
    let smaller =
      few_candidates candidate injective fuel (n + 1) (without (candidate n) used) (λ k a b.
        contains-without (candidate n) (candidate k) used
          (all k (omega (arith, a)) (omega (arith, b)))
          (later_differs candidate injective n k a)) in
    omega (arith, smaller, length-without (candidate n) used here)

first_unused-none :
    (uuid : ℕ → String) (prefix : String) (used : List String) (fuel n : ℕ)
    → first_unused uuid prefix used fuel n ≡ none
    → (k : ℕ) → n ≤ k
    → k < n + fuel
    → contains used (concat prefix (uuid k)) ≡ true
unfolding first_unused
first_unused-none uuid prefix used zero n e k a b = absurd (omega (arith, a, b))
first_unused-none uuid prefix used (suc fuel) n e k a b =
    elim (Bool-cases (contains used (concat prefix (uuid n)))) [
      | inr free ↦ absurd (ground arith)
      | inl taken ↦ elim (Bool-cases (nat_eq k n)) [
        | inl here ↦ rw (same_number k n here) taken
        | inr later ↦
            first_unused-none uuid prefix used fuel (n + 1) (ground arith) k
              (later_number k n a later) (omega (arith, b))
      ]
    ]

-- Where no two UUIDs are equal, one more candidate than there are identities in use is enough.
first_unused-enough :
    (uuid : ℕ → String) (prefix : String)
    → ((i j : ℕ) → uuid i ≡ uuid j → i ≡ j)
    → (used : List String) (n : ℕ)
    → (id : String) × (tick : ℕ) × (first_unused uuid prefix used (suc (length used)) n
        ≡ some (id, tick))
first_unused-enough uuid prefix injective used n =
    elim (Option-cases (first_unused uuid prefix used (suc (length used)) n)) [
      | inl none_left ↦
          let few =
            few_candidates (λ k. concat prefix (uuid k))
              (λ i j e. injective i j (concat-injective prefix (uuid i) (uuid j) e))
              (suc (length used)) n used
              (first_unused-none uuid prefix used (suc (length used)) n none_left) in
          absurd (omega (arith, few))
      | inr ((id, tick), e) ↦ (id, tick, e)
    ]

new_unique_id_found :
    {S L P : Type 0} (env : Env S L P) (prefix : String) (kind : IdField) (w : World S L P)
    (events : List LedgerEvent) (id : String) (tick : ℕ)
    → read_events env.host w.ledger ≡ ok events
    → first_unused env.uuid prefix
        (used_ids kind events)
        (suc (length (used_ids kind events)))
        w.tick
      ≡ some (id, tick)
    → new_unique_id env prefix kind w ≡ (ok id, record w { tick = tick })
unfolding new_unique_id
new_unique_id_found env prefix kind w events id tick r found = simp (new_unique_id, r, found)

-- On a readable ledger, and where no two UUIDs are equal, `_new_unique_id` gives an identity: the
-- first candidate, from the state's UUID on, that no event carries in that field. Nothing but the
-- counter of the state changes.
pub new_unique_id_lem :
    {S L P : Type 0} (env : Env S L P) (prefix : String) (kind : IdField) (w : World S L P)
    (events : List LedgerEvent)
    → ((i j : ℕ) → env.uuid i ≡ env.uuid j → i ≡ j)
    → read_events env.host w.ledger ≡ ok events
    → (id : String) × (tick : ℕ) × (new_unique_id env prefix kind w
        ≡ (ok id, record w { tick = tick }))
      × FirstUnused env.uuid prefix (used_ids kind events) w.tick id tick
new_unique_id_lem env prefix kind w events injective r =
    let (id, tick, found) =
      first_unused-enough env.uuid prefix injective (used_ids kind events) w.tick in
    (
      id,
      tick,
      new_unique_id_found env prefix kind w events id tick r found,
      first_unused_lem env.uuid prefix (used_ids kind events) (suc (length (used_ids kind events)))
          w.tick id tick found,
    )
