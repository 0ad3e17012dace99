-- ===== src/Queue/Pop/Drained.antt =====
-- The loop of `pop_claim_no_wait` of qtask_list/queue.py ends with a claim or an empty ready list.
use mathlib.Core.Option.{Option, none, some}
use mathlib.Core.List.{append_assoc}
use stockev_qtask_list.Base.{
  ℕ, zero, suc, String, ◌≡◌, refl, ap, sym, ◌∙◌, arith, List, [], ◌∷◌, ◌++◌, length, length-append,
  pop_last, Option-cases, inl, inr,
}
use stockev_qtask_list.Store.Messages.{Message, Envelope}
use stockev_qtask_list.Store.{Store}
use stockev_qtask_list.Queue.Config.{Config}
use stockev_qtask_list.Queue.Claim.{pop_ready}
use stockev_qtask_list.Queue.Pop.{PopRound, claim_popped, or_again, pop_loop, pop_claim_no_wait}
use stockev_qtask_list.Queue.Pop.Started.{Standing, Turn, claim_popped-Turn}

pop_last-split :
    (xs rest : List Message) (m : Message) → pop_last xs ≡ some (m, rest) → xs ≡ rest ++ m ∷ []
unfolding pop_last
pop_last-split [] rest m e = ground arith
pop_last-split (x ∷ []) rest m e = ground arith
pop_last-split (x ∷ y ∷ r) rest m e = elim (Option-cases (pop_last (y ∷ r))) [
  | inl n ↦ ground arith
  | inr ((z, ys), k) ↦ ground (arith, pop_last-split (y ∷ r) ys z k)
]

pop_last-none : (xs : List Message) → pop_last xs ≡ none → xs ≡ []
unfolding pop_last
pop_last-none [] e = refl
pop_last-none (x ∷ []) e = ground arith
pop_last-none (x ∷ y ∷ r) e = ground (arith, pop_last-none (y ∷ r))

pop_ready-split :
    (w : String) (s u : Store) (m : Message)
    → pop_ready w s ≡ some (m, u)
    → s.ready ≡ u.ready ++ m ∷ []
unfolding pop_ready
pop_ready-split w s u m e = grind (arith, pop_last-split)

pop_ready-none : (w : String) (s : Store) → pop_ready w s ≡ none → s.ready ≡ []
unfolding pop_ready
pop_ready-none w s e = grind (arith, pop_last-none)

-- A claim that stands first in the worker's list with its attempt started, under a token that one
-- of the rounds drew; or none and an empty ready list.
abbrev pub Answers : String → (ℕ → PopRound) → Option Envelope × Store → Type 0
Answers w rounds (none, u) = u.ready ≡ []
Answers w rounds (some e, u) = (n : ℕ) × Standing w (rounds n).tokens.claim_token (some e, u)

-- The texts that the loop took stood at the right end, where the oldest stand.
pub record Popped (w : String) (rounds : ℕ → PopRound) (s : Store) (r : Option Envelope × Store)
    : Type 0 where
  pub taken : (ms : List Message) × (s.ready ≡ r.1.ready ++ ms)
  pub answer : Answers w rounds r

or_again-Popped :
    (w : String) (rounds : ℕ → PopRound) (n : ℕ) (s u : Store) (m : Message)
    (r : Option Envelope × Store) (next : Store → Option Envelope × Store)
    → s.ready ≡ u.ready ++ m ∷ []
    → Turn w (rounds n).tokens.claim_token u r
    → Popped w rounds r.1 (next r.1)
    → Popped w rounds s (or_again r next)
or_again-Popped w rounds n s u m (some e, v) next split t p = record {
  taken = (m ∷ [], split ∙ ap (λ x. x ++ m ∷ []) (sym t.waiting));
  answer = (n, t.standing);
}
or_again-Popped w rounds n s u m (none, v) next split t p =
    let (ms, e) = p.taken in
    record {
      taken = (
        ms ++ m ∷ [],
        split
            ∙ ap (λ x. x ++ m ∷ []) (sym t.waiting ∙ e)
            ∙ append_assoc (next v).1.ready ms (m ∷ []),
      );
      answer = p.answer;
    }

append_nil : (xs : List Message) → xs ≡ xs ++ []
append_nil [] = refl
append_nil (x ∷ xs) = ap (λ z. x ∷ z) (append_nil xs)

length_zero : (xs : List Message) → length xs ≡ 0 → xs ≡ []
length_zero [] e = refl
length_zero (x ∷ xs) e = ground (arith, e)

pop_loop-Popped :
    (n : ℕ) (c : Config) (w : String) (rounds : ℕ → PopRound) (s : Store)
    → length s.ready ≡ n
    → Popped w rounds s (pop_loop n c w rounds s)
unfolding pop_loop
pop_loop-Popped zero c w rounds s e = record {
  taken = ([], append_nil s.ready);
  answer = length_zero s.ready e;
}
pop_loop-Popped (suc n) c w rounds s e = elim (Option-cases (pop_ready w s)) [
  | inl k ↦
      rw (k, pop_loop) (record { taken = ([], append_nil s.ready); answer = pop_ready-none w s k })
  | inr ((m, u), k) ↦
      rw (k, pop_loop)
        (let t = claim_popped-Turn c w (rounds n) m u in
          or_again-Popped w rounds n s u m (claim_popped c w (rounds n) m u)
            (λ v. pop_loop n c w rounds v) (pop_ready-split w s u m k) t
            (pop_loop-Popped n c w rounds (claim_popped c w (rounds n) m u).1 (
              omega (
                arith,
                e,
                ap length (pop_ready-split w s u m k),
                length-append u.ready (m ∷ []),
                ap length t.waiting,
              ))))
]

-- `pop_claim_no_wait` answers a claim whose text stands first in the worker's list with a token that
-- was drawn in this call, and whose task's record is in processing with that token and the text's
-- attempt, or it answers none with the ready list empty, whatever the tokens drawn and the payloads
-- read; the texts that it took are the last of the ready list, and the others stay in their order.
pub pop_claim_no_wait-Popped :
    (c : Config) (w : String) (rounds : ℕ → PopRound) (s : Store)
    → Popped w rounds s (pop_claim_no_wait c w rounds s)
unfolding pop_claim_no_wait
pop_claim_no_wait-Popped c w rounds s = pop_loop-Popped (length s.ready) c w rounds s refl
